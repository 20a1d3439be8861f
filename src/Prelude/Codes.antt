-- ===== src/Prelude/Codes.antt =====
-- Data types whose values are stored as words: the two matches between words and values.
use pixiv_archive.Prelude.Lists.{All}
use pixiv_archive.Prelude.Tests.{if◌then◌else◌, Bool-cases}
use Prim.Native.String.{String}
use mathlib.Core.Path.{◌≡◌, ap, ◌∙◌}
use mathlib.Core.Logic.{◌↔◌, inl, inr}
use mathlib.Core.Option.{Option, none, some}
use mathlib.Core.List.{List, [], ◌∷◌}
use text.Mathlib.Text.{◌==◌ as str_eq}
use text.Mathlib.TextEquality.{eq_iff as str_eq_iff}

-- A match on a word, from the first arm to the last, with `none` in the arm that matches the rest.
unfoldable pub match_text {ℓ} : {A : Type ℓ} → List (String × A) → String → Option A
match_text [] s = none
match_text (arm ∷ arms) s = if str_eq s arm.0 then some arm.1 else match_text arms s

module _ {A : Type 0} (encode : A → String) where
  -- A word is decoded to a value exactly if it is the word of that value.
  abbrev pub IsDecodedBy : (String → Option A) → Type 0
  IsDecodedBy decode = (s : String) (a : A) → (decode s ≡ some a) ↔ (s ≡ encode a)

  match_text_sound :
      (arms : List (String × A)) (s : String) (a : A)
      → All (λ arm. arm.0 ≡ encode arm.1) arms
      → match_text arms s ≡ some a
      → s ≡ encode a
  unfolding match_text
  match_text_sound [] s a own h = cc
  match_text_sound (arm ∷ arms) s a own h = elim (Bool-cases (str_eq s arm.0)) [
    | inl hit ↦ (str_eq_iff s arm.0).0 hit ∙ own.0 ∙ ap encode (cc (h, (rw hit at h)))
    | inr miss ↦ match_text_sound arms s a own.1 (rw miss at h)
  ]

  -- A match whose arms are the words of their values, and which finds the word of each value.
  pub match_text-IsDecodedBy :
      (arms : List (String × A))
      → All (λ arm. arm.0 ≡ encode arm.1) arms
      → ((a : A) → match_text arms (encode a) ≡ some a)
      → IsDecodedBy (match_text arms)
  match_text-IsDecodedBy arms own found s a =
      (match_text_sound arms s a own, λ e. ap (match_text arms) e ∙ found a)
