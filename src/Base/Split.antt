-- ===== src/Base/Split.antt =====
-- Texts that are split at a bar.
use Prim.Native.Char.{Char, code}
use Prim.Native.String.append
use Prim.Native.String.{String, [] as no_text, ◌∷◌ as ◌▸◌, ◌++◌ as ◌⧺◌}
use mathlib.Core.Bool.{Bool, true, false}
use mathlib.Core.Logic.{inl, inr}
use mathlib.Core.List.{List, [], ◌∷◌}
use mathlib.Core.Path.{◌≡◌, refl, sym, ap, ◌∙◌}
use native.Mathlib.Omega.{arith}
use poison_dart.Base.Tests.{◌==◌, if◌then◌else◌, Bool-cases}

unfoldable pub onto_first : Char → List String → List String
onto_first c [] = (c ▸ no_text) ∷ []
onto_first c (word ∷ words) = (c ▸ word) ∷ words

-- `split('|')`: the code of the character is 124.
unfoldable pub split : String → List String
unfolding onto_first
split no_text = no_text ∷ []
split (c ▸ s) = let rest = split s in if code c == 124 then no_text ∷ rest else onto_first c rest

abbrev pub IsBarFree : String → Type 0
IsBarFree no_text = Unit
IsBarFree (c ▸ s) = (code c == 124 ≡ false) × IsBarFree s

-- A text without a bar is the first part of what is split.
pub split-append : (s t : String) → IsBarFree s → split (s ⧺ ("|" ⧺ t)) ≡ s ∷ split t
unfolding split onto_first
split-append no_text t h =
    ap split (append.nil ("|" ⧺ t) ∙ append.cons _ no_text t)
    ∙ ap (λ r. no_text ∷ split r) (append.nil t)
split-append (c ▸ s) t h =
    ap split (append.cons c s ("|" ⧺ t)) ∙ (rw (h.0, split-append s t h.1) refl)

pub split-IsBarFree : (s : String) → IsBarFree s → split s ≡ s ∷ []
unfolding split onto_first
split-IsBarFree no_text h = refl
split-IsBarFree (c ▸ s) h = rw (h.0, split-IsBarFree s h.1) refl

unfoldable pub bar_free : String → Bool
bar_free no_text = true
bar_free (c ▸ s) = let rest = bar_free s in if code c == 124 then false else rest

pub bar_free-IsBarFree : (s : String) → bar_free s ≡ true → IsBarFree s
unfolding bar_free
bar_free-IsBarFree no_text h = tt
bar_free-IsBarFree (c ▸ s) h = elim (Bool-cases (code c == 124)) [
  | inl e ↦ absurd (ground arith)
  | inr e ↦ (e, bar_free-IsBarFree s (rw (bar_free, e) at h))
]

rest_of : String → String
rest_of no_text = no_text
rest_of (c ▸ s) = s

pub append_cancel : (s t u : String) → s ⧺ t ≡ s ⧺ u → t ≡ u
unfolding rest_of
append_cancel no_text t u e = sym (append.nil t) ∙ e ∙ append.nil u
append_cancel (c ▸ s) t u e =
    append_cancel s t u (ap rest_of (sym (append.cons c s t) ∙ e ∙ append.cons c s u))
