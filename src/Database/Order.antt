-- ===== src/Database/Order.antt =====
-- The order in which Postgres gives the rows of a SELECT without ORDER BY: any order at all.
use tezos_api_gateway.Base.{ℕ, zero, suc, ◌≡◌, refl, subst, List, [], ◌∷◌, arith, inl, inr}
use tezos_api_gateway.Base.Lists.{All}
use tezos_api_gateway.Exceptions.{Result, ok, Result-cases, traverse}
use mathlib.Core.List.{Perm}
use mathlib.Core.List.Perm

module _ {A : Type 0} where
  -- An element put at a position, or at the end.
  unfoldable pub insert_at : ℕ → A → List A → List A
  insert_at n x [] = x ∷ []
  insert_at zero x (y ∷ ys) = x ∷ y ∷ ys
  insert_at (suc n) x (y ∷ ys) = y ∷ insert_at n x ys

  -- Every element is put somewhere among those behind it, which makes any permutation.
  unfoldable pub arrange : (A → List A → ℕ) → List A → List A
  unfolding insert_at
  arrange place [] = []
  arrange place (x ∷ xs) = insert_at (place x xs) x (arrange place xs)

  insert_at-All :
      (P : A → Type 0) (n : ℕ) (x : A) (xs : List A) → P x → All P xs → All P (insert_at n x xs)
  unfolding insert_at
  insert_at-All P n x [] h hs = (h, tt)
  insert_at-All P zero x (y ∷ ys) h hs = (h, hs)
  insert_at-All P (suc n) x (y ∷ ys) h (this, rest) = (this, insert_at-All P n x ys h rest)

  pub arrange-All :
      (P : A → Type 0) (place : A → List A → ℕ) (xs : List A) → All P xs → All P (arrange place xs)
  unfolding arrange
  arrange-All P place [] h = tt
  arrange-All P place (x ∷ xs) (h, hs) =
      insert_at-All P (place x xs) x (arrange place xs) h (arrange-All P place xs hs)

  insert_at-Perm : (n : ℕ) (x : A) (xs : List A) → Perm (insert_at n x xs) (x ∷ xs)
  unfolding insert_at
  insert_at-Perm n x [] = Perm.refl (x ∷ [])
  insert_at-Perm zero x (y ∷ ys) = Perm.refl (x ∷ y ∷ ys)
  insert_at-Perm (suc n) x (y ∷ ys) =
      Perm.trans (Perm.cons y (insert_at-Perm n x ys)) (Perm.swap x y ys)

  pub arrange-Perm : (place : A → List A → ℕ) (xs : List A) → Perm (arrange place xs) xs
  unfolding arrange
  arrange-Perm place [] = Perm.nil
  arrange-Perm place (x ∷ xs) =
      Perm.trans (insert_at-Perm (place x xs) x (arrange place xs))
        (Perm.cons x (arrange-Perm place xs))

module _ {A B : Type 0} (f : A → Result B) where
  traverse-insert_at :
      (n : ℕ) (x : A) (y : B) (xs : List A) (ys : List B)
      → f x ≡ ok y
      → traverse f xs ≡ ok ys
      → traverse f (insert_at n x xs) ≡ ok (insert_at n y ys)
  unfolding insert_at traverse
  traverse-insert_at n x y [] ys h e = ground (arith, h)
  traverse-insert_at zero x y (z ∷ zs) ys h e = elim (Result-cases (f z)) [
    | inr (t, failed) ↦ ground arith
    | inl (b, good) ↦ elim (Result-cases (traverse f zs)) [
      | inr (t, failed) ↦ ground arith
      | inl (bs, goods) ↦ ground arith
    ]
  ]
  traverse-insert_at (suc n) x y (z ∷ zs) ys h e = elim (Result-cases (f z)) [
    | inr (t, failed) ↦ ground arith
    | inl (b, good) ↦ elim (Result-cases (traverse f zs)) [
      | inr (t, failed) ↦ ground arith
      | inl (bs, goods) ↦ let ih = traverse-insert_at n x y zs bs h goods in ground (arith, ih)
    ]
  ]

  -- Rows that are read in another order stand for the same values, in that order.
  pub traverse-arrange :
      (place : A → List A → ℕ) (xs : List A) (ys : List B)
      → traverse f xs ≡ ok ys
      → (zs : List B) × (traverse f (arrange place xs) ≡ ok zs) × Perm zs ys
  unfolding arrange traverse
  traverse-arrange place [] ys e =
      let whole : [] ≡ ys = ground arith in ([], refl, subst (λ l. Perm [] l) whole Perm.nil)
  traverse-arrange place (x ∷ xs) ys e = elim (Result-cases (f x)) [
    | inr (t, failed) ↦ ground arith
    | inl (b, good) ↦ elim (Result-cases (traverse f xs)) [
      | inr (t, failed) ↦ ground arith
      | inl (bs, goods) ↦
          let (zs, read, same) = traverse-arrange place xs bs goods in
          let n = place x xs in
          let whole : b ∷ bs ≡ ys = ground arith in
          (
            insert_at n b zs,
            traverse-insert_at n x b (arrange place xs) zs good read,
            subst (λ l. Perm (insert_at n b zs) l) whole
                (Perm.trans (insert_at-Perm n b zs) (Perm.cons b same)),
          )
    ]
  ]
