-- ===== src/Common/Text.antt =====
-- Go's strings.Split, strings.SplitN with a limit of 2, and strings.Join, for a separator of one
-- character.
use Prim.Native.Char.{Char, code}
use Prim.Native.String.{String, ◌++◌ as str_append}
use mathlib.Core.Path.{◌≡◌, refl}
use mathlib.Core.Logic.{◌≢◌}
use mathlib.Core.Bool.{Bool, true, false}
use mathlib.Core.List.{List, [], ◌∷◌}
use mathlib.Core.Option.{Option, none, some}
use native.Mathlib.Omega.{arith}
use text.Mathlib.TextLemmas.{nil-append, cons-append}
use llm_inference_control_pl.Common.Tests.{◌==◌, if◌then◌else◌}
use llm_inference_control_pl.Common.Lists.{All}

abbrev pub is_char : Char → Char → Bool
is_char c d = code c == code d

-- The first part grows by a character in front.
abbrev pub extend_first : Char → List String → List String
extend_first c [] = []
extend_first c (p ∷ ps) = String.◌∷◌ c p ∷ ps

abbrev pub extend_key : Char → Option (String × String) → Option (String × String)
extend_key c none = none
extend_key c (some (key, value)) = some (String.◌∷◌ c key, value)

abbrev pub is_empty : String → Bool
is_empty String.[] = true
is_empty (String.◌∷◌ c s) = false

module _ (sep : Char) where
  -- strings.Split(s, sep)
  unfoldable pub split : String → List String
  split String.[] = "" ∷ []
  split (String.◌∷◌ c s) =
      let rest = split s in if is_char c sep then "" ∷ rest else extend_first c rest

  -- strings.SplitN(s, sep, 2): the texts before and behind the first separator, none without one
  unfoldable pub split_once : String → Option (String × String)
  split_once String.[] = none
  split_once (String.◌∷◌ c s) =
      let rest = split_once s in if is_char c sep then some ("", s) else extend_key c rest

  -- strings.Join(parts, sep)
  unfoldable pub join : List String → String
  join [] = ""
  join (p ∷ []) = p
  join (p ∷ q ∷ ps) = let rest = join (q ∷ ps) in str_append p (String.◌∷◌ sep rest)

  -- No character of the text is the separator.
  abbrev pub Lacks : String → Type 0
  Lacks String.[] = Unit {0}
  Lacks (String.◌∷◌ c s) = (is_char c sep ≡ false) × Lacks s

  is_char_self : is_char sep sep ≡ true
  is_char_self = ground arith

  pub split-append :
      (p rest : String) → Lacks p → split (str_append p (String.◌∷◌ sep rest)) ≡ p ∷ split rest
  unfolding split
  split-append String.[] rest h = rw (nil-append (String.◌∷◌ sep rest), split, is_char_self) refl
  split-append (String.◌∷◌ c p) rest h =
      rw (cons-append c p (String.◌∷◌ sep rest), split, h.0, split-append p rest h.1) refl

  pub split-Lacks : (p : String) → Lacks p → split p ≡ p ∷ []
  unfolding split
  split-Lacks String.[] h = refl
  split-Lacks (String.◌∷◌ c p) h = rw (h.0, split-Lacks p h.1) refl

  pub split_once-append :
      (key value : String)
      → Lacks key
      → split_once (str_append key (String.◌∷◌ sep value)) ≡ some (key, value)
  unfolding split_once
  split_once-append String.[] value h =
      rw (nil-append (String.◌∷◌ sep value), split_once, is_char_self) refl
  split_once-append (String.◌∷◌ c key) value h =
      rw
        (cons-append c key (String.◌∷◌ sep value), split_once, h.0, split_once-append key value h.1)
        refl

  pub split-join : (ps : List String) → ps ≢ [] → All Lacks ps → split (join ps) ≡ ps
  unfolding join
  split-join [] h a = absurd (h refl)
  split-join (p ∷ []) h a = split-Lacks p a.0
  split-join (p ∷ q ∷ ps) h a =
      rw (split-append p (join (q ∷ ps)) a.0, split-join (q ∷ ps) (cc) a.1) refl

  pub append-Lacks : (s t : String) → Lacks s → Lacks t → Lacks (str_append s t)
  append-Lacks String.[] t h k = rw (nil-append t) k
  append-Lacks (String.◌∷◌ c s) t h k = rw (cons-append c s t) (h.0, append-Lacks s t h.1 k)

  pub is_empty-join :
      (p : String) (ps : List String) → is_empty p ≡ false → is_empty (join (p ∷ ps)) ≡ false
  unfolding join
  is_empty-join p [] h = h
  is_empty-join String.[] (q ∷ ps) h = absurd cc
  is_empty-join (String.◌∷◌ c p) (q ∷ ps) h =
      rw (cons-append c p (String.◌∷◌ sep (join (q ∷ ps)))) refl

pub is_empty-append : (s t : String) (c : Char) → is_empty (str_append s (String.◌∷◌ c t)) ≡ false
is_empty-append String.[] t c = rw (nil-append (String.◌∷◌ c t)) refl
is_empty-append (String.◌∷◌ d s) t c = rw (cons-append d s (String.◌∷◌ c t)) refl

-- The parts of a longer text lack what its join lacks.
pub join-Lacks :
    (sep other : Char) (ps : List String)
    → is_char sep other ≡ false
    → All (Lacks other) ps
    → Lacks other (join sep ps)
unfolding join
join-Lacks sep other [] h a = tt
join-Lacks sep other (p ∷ []) h a = a.0
join-Lacks sep other (p ∷ q ∷ ps) h a =
    append-Lacks other p (String.◌∷◌ sep (join sep (q ∷ ps))) a.0
      (h, join-Lacks sep other (q ∷ ps) h a.1)
