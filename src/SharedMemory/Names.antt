-- ===== src/SharedMemory/Names.antt =====
-- The names of the shared objects (`make_block_name_based_on_id`).
use ipm.Base.{
  ℕ, suc, ◌≤◌, ◌≡◌, ◌≢◌, ◌⊎◌, inl, inr, refl, ap, sym, ◌∙◌, List, [], ◌∷◌, ◌++◌, arith, length,
  take, length-append, get_elem?, some, none, zero,
}
use ipm.Layout.{max_name_len}
use ipm.SharedMemory.{format_id, make_block_name_based_on_id}

take_all : (n : ℕ) (xs : List ℕ) → length xs ≤ n → take n xs ≡ xs
take_all zero [] h = refl
take_all (suc n) [] h = refl
take_all zero (x ∷ xs) h = elim h [ ]
take_all (suc n) (x ∷ xs) h = ap (λ r. x ∷ r) (take_all n xs (ground arith))

append_cancel : (xs ys s t : List ℕ) → length s ≡ length t → xs ++ s ≡ ys ++ t → (xs ≡ ys) × (s ≡ t)
append_cancel [] [] s t h e = (refl, e)
append_cancel [] (y ∷ ys) s t h e = absurd (omega (arith, ap length e, length-append ys t))
append_cancel (x ∷ xs) [] s t h e = absurd (omega (arith, ap length e, length-append xs s))
append_cancel (x ∷ xs) (y ∷ ys) s t h e =
    let (tails, rest) = append_cancel xs ys s t h (cc e) in (cc (e, tails), rest)

-- The two numbers that the library gives its objects.
abbrev pub IsBlockId : ℕ → Type 0
IsBlockId id = (id ≡ 1) ⊎ (id ≡ 2)

suffix : ℕ → List ℕ
suffix id = b'-' ∷ format_id id

-- The suffixes differ in their last place.
last_digit : List ℕ → ℕ
last_digit l = elim (get_elem? l 16) [ none ↦ 0 | some d ↦ d ]

ones-ne-twos : suffix 1 ≢ suffix 2
unfolding suffix format_id last_digit
ones-ne-twos e = let last : ◌≡◌ {A = ℕ} b'1' b'2' = ap last_digit e in omega (arith, last)

suffix-injective :
    (i j : ℕ)
    → IsBlockId i
    → IsBlockId j
    → (length (suffix i) ≡ length (suffix j)) × (suffix i ≡ suffix j → i ≡ j)
unfolding suffix format_id
suffix-injective i j (inl p) (inl q) = (rw (p, q), λ e. p ∙ sym q)
suffix-injective i j (inl p) (inr q) =
    (rw (p, q), λ e. absurd (ones-ne-twos (sym (ap suffix p) ∙ e ∙ ap suffix q)))
suffix-injective i j (inr p) (inl q) =
    (rw (p, q), λ e. absurd (ones-ne-twos (sym (sym (ap suffix p) ∙ e ∙ ap suffix q))))
suffix-injective i j (inr p) (inr q) = (rw (p, q), λ e. p ∙ sym q)

-- Two of the library's objects have one name only if they are the same part of blocks of one name,
-- for block names of at most the longest length.
pub block_name-injective :
    (m n : List ℕ) (i j : ℕ)
    → length m ≤ max_name_len
    → length n ≤ max_name_len
    → IsBlockId i
    → IsBlockId j
    → make_block_name_based_on_id m i ≡ make_block_name_based_on_id n j
    → (m ≡ n) × (i ≡ j)
unfolding make_block_name_based_on_id suffix
block_name-injective m n i j hm hn bi bj e =
    let (even, same_id) = suffix-injective i j bi bj in
    let joined : m ++ suffix i ≡ n ++ suffix j =
      cc (e, take_all max_name_len m hm, take_all max_name_len n hn) in
    let (names, tails) = append_cancel m n (suffix i) (suffix j) even joined in
    (names, same_id tails)
