-- ===== src/Error/Texts.antt =====
-- What the two texts of a result code tell a caller (source/ipm_error.c).
use text.Mathlib.Text.{◌==◌ as str_eq}
use text.Mathlib.TextEquality.{eq_iff}
use ipm.Base.{
  ℕ, zero, suc, ◌≤◌, ◌<◌, ◌≡◌, refl, ap, ◌↔◌, inl, inr, Bool, true, not, ◌&&◌, ◌||◌, String, arith,
  leb, ◌==◌, Bool-cases,
}
use ipm.Error.{result_count, ipm_result_to_str, ipm_result_to_msg}

-- Whether a test holds of all codes below a bound, by evaluation.
holds_for_codes : (ℕ → Bool) → ℕ → Bool
holds_for_codes test zero = true
holds_for_codes test (suc bound) = holds_for_codes test bound && test bound

holds_for_codes_lem :
    (test : ℕ → Bool) (bound c : ℕ) → c < bound → holds_for_codes test bound ≡ true → test c ≡ true
unfolding holds_for_codes
holds_for_codes_lem test zero c below all = elim below [ ]
holds_for_codes_lem test (suc bound) c below all = ground (arith, holds_for_codes_lem test bound c)

-- Two codes whose texts agree are one code.
separates : (ℕ → String) → ℕ → Bool
separates f a = holds_for_codes (λ b. not (str_eq (f a) (f b)) || a == b) result_count

separates_sound :
    (f : ℕ → String) (a b : ℕ)
    → holds_for_codes (separates f) result_count ≡ true
    → a < result_count
    → b < result_count
    → f a ≡ f b
    → a ≡ b
unfolding separates
separates_sound f a b h la lb e =
    let row =
      holds_for_codes_lem _ result_count b lb
        (holds_for_codes_lem (separates f) result_count a la h) in
    let same = (eq_iff (f a) (f b)).1 e in ground (arith, row, same)

strs_separate : holds_for_codes (separates ipm_result_to_str) result_count ≡ true
unfolding holds_for_codes separates ipm_result_to_str
strs_separate = refl

msgs_separate : holds_for_codes (separates ipm_result_to_msg) result_count ≡ true
unfolding holds_for_codes separates ipm_result_to_msg
msgs_separate = refl

-- Two codes of the enumeration share a name only if they are one code, and a message likewise.
texts_identify :
    (a b : ℕ)
    → a < result_count
    → b < result_count
    → ((ipm_result_to_str a ≡ ipm_result_to_str b) ↔ (a ≡ b))
      × ((ipm_result_to_msg a ≡ ipm_result_to_msg b) ↔ (a ≡ b))
texts_identify a b la lb = (
  (separates_sound ipm_result_to_str a b strs_separate la lb, ap ipm_result_to_str),
  (separates_sound ipm_result_to_msg a b msgs_separate la lb, ap ipm_result_to_msg),
)

known : (ℕ → String) → ℕ → Bool
known f a = not (str_eq (f a) "Unknown")

strs_known : holds_for_codes (known ipm_result_to_str) result_count ≡ true
unfolding holds_for_codes known ipm_result_to_str
strs_known = refl

msgs_known : holds_for_codes (known ipm_result_to_msg) result_count ≡ true
unfolding holds_for_codes known ipm_result_to_msg
msgs_known = refl

known_sound :
    (f : ℕ → String) (c : ℕ)
    → holds_for_codes (known f) result_count ≡ true
    → f c ≡ "Unknown"
    → result_count ≤ c
unfolding known
known_sound f c h e = elim (Bool-cases (leb result_count c)) [
  | inl out ↦ ground arith
  | inr within ↦
      let row = holds_for_codes_lem (known f) result_count c (ground arith) h in
      let same = (eq_iff (f c) "Unknown").1 e in ground (arith, row, same)
]

-- The name and the message are "Unknown" exactly for the numbers that are no code.
unknown_iff :
    (c : ℕ)
    → ((ipm_result_to_str c ≡ "Unknown") ↔ (result_count ≤ c))
      × ((ipm_result_to_msg c ≡ "Unknown") ↔ (result_count ≤ c))
unfolding ipm_result_to_str ipm_result_to_msg
unknown_iff c = (
  (known_sound ipm_result_to_str c strs_known, λ h. ground arith),
  (known_sound ipm_result_to_msg c msgs_known, λ h. ground arith),
)
