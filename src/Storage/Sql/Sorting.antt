-- ===== src/Storage/Sql/Sorting.antt =====
-- Sorted lists: one is made by insertion, and two of the same rows without ties are one.
use mathlib.Core.List.{Mem, Perm, mem-cons, mem-cons_self, mem-cons_of_mem, not-mem-nil}
use mathlib.Core.List.Perm
use mathlib.Core.Bool.{Bool-set}
use mathlib.Core.Logic.Or
use gi_con_mon.Common.{
  ◌≡◌, sym, subst, Bool, true, false, ◌&&◌, List, [], ◌∷◌, All, if◌then◌else◌, Bool-cases, inl, inr,
  ap, ◌∙◌,
}
use gi_con_mon.Storage.Sql.{IsOrder, Sorted, Listing}

module _ {Row : Type 0} (order : Row → Row → Bool) where
  unfoldable pub sorted_in : Row → List Row → List Row
  sorted_in r [] = r ∷ []
  sorted_in r (x ∷ xs) = let rest = sorted_in r xs in if order r x then r ∷ x ∷ xs else x ∷ rest

  unfoldable pub sort : List Row → List Row
  unfolding sorted_in
  sort [] = []
  sort (x ∷ xs) = sorted_in x (sort xs)

  sorted_in-Perm : (r : Row) (xs : List Row) → Perm (r ∷ xs) (sorted_in r xs)
  unfolding sorted_in
  sorted_in-Perm r [] = Perm.refl (r ∷ [])
  sorted_in-Perm r (x ∷ xs) = elim (Bool-cases (order r x)) [
    | inl first ↦ rw first (Perm.refl (r ∷ x ∷ xs))
    | inr later ↦ rw later (Perm.trans (Perm.swap x r xs) (Perm.cons x (sorted_in-Perm r xs)))
  ]

  pub sort-Perm : (xs : List Row) → Perm xs (sort xs)
  unfolding sort
  sort-Perm [] = Perm.refl []
  sort-Perm (x ∷ xs) = Perm.trans (Perm.cons x (sort-Perm xs)) (sorted_in-Perm x (sort xs))

  -- What holds of the head and of the rest.
  All-sorted_in :
      (P : Row → Type 0) (r : Row) (xs : List Row) → P r → All P xs → All P (sorted_in r xs)
  unfolding sorted_in
  All-sorted_in P r [] p h = (p, tt)
  All-sorted_in P r (x ∷ xs) p h = elim (Bool-cases (order r x)) [
    | inl first ↦ rw first (p, h)
    | inr later ↦ rw later (h.0, All-sorted_in P r xs p h.1)
  ]

  All-weaken : (P Q : Row → Type 0) (xs : List Row) → ((x : Row) → P x → Q x) → All P xs → All Q xs
  All-weaken P Q [] step h = tt
  All-weaken P Q (x ∷ xs) step h = (step x h.0, All-weaken P Q xs step h.1)

  -- No two rows of a list are on a par.
  abbrev pub NoTies : List Row → Type 0
  NoTies xs = (a b : Row) → Mem a xs → Mem b xs → order a b ≡ true → order b a ≡ true → a ≡ b

  -- No row of a list is on a par with a later one.
  abbrev pub Apart : List Row → Type 0
  Apart [] = Unit
  Apart (x ∷ xs) = All (λ y. (order x y && order y x) ≡ false) xs × Apart xs

  not_later :
      (x y : Row) (xs : List Row)
      → All (λ z. (order x z && order z x) ≡ false) xs
      → order x y ≡ true
      → order y x ≡ true
      → Mem y xs
      → ⊥
  not_later x y [] apart h k m = not-mem-nil m
  not_later x y (z ∷ xs) apart h k m =
      Or.elim (λ p p'. absurd p) (mem-cons.0 m)
        (λ e. absurd (cc (subst (λ w. (order x w && order w x) ≡ false) (sym e) apart.0, h, k)))
        (not_later x y xs apart.1 h k)

  pub Apart-NoTies : IsSet Row → (xs : List Row) → Apart xs → NoTies xs
  Apart-NoTies set [] apart a b ma mb h k = absurd (not-mem-nil ma)
  Apart-NoTies set (x ∷ xs) apart a b ma mb h k =
      Or.elim (set a b) (mem-cons.0 ma)
        (λ ea.
          Or.elim (set a b) (mem-cons.0 mb) (λ eb. ea ∙ sym eb)
            (λ mb'. absurd (
              not_later x b xs apart.0 (subst (λ w. order w b ≡ true) ea h)
                (subst (λ w. order b w ≡ true) ea k) mb')))
        (λ ma'.
          Or.elim (set a b) (mem-cons.0 mb)
            (λ eb. absurd (
              not_later x a xs apart.0 (subst (λ w. order w a ≡ true) eb k)
                (subst (λ w. order a w ≡ true) eb h) ma'))
            (λ mb'. Apart-NoTies set xs apart.1 a b ma' mb' h k))

  module _ (lawful : IsOrder order) where
    below : (r x : Row) → order r x ≡ false → order x r ≡ true
    below r x after = elim (lawful.total r x) [ inl up ↦ absurd (cc (up, after)) | inr back ↦ back ]

    sorted_in-Sorted : (r : Row) (xs : List Row) → Sorted order xs → Sorted order (sorted_in r xs)
    unfolding sorted_in
    sorted_in-Sorted r [] s = (tt, tt)
    sorted_in-Sorted r (x ∷ xs) s = elim (Bool-cases (order r x)) [
      | inl first ↦ rw first (
        (
          first,
          All-weaken (λ y. order x y ≡ true) (λ y. order r y ≡ true) xs
              (λ y h. lawful.transitive r x y first h) s.0,
        ),
        s,
      )
      | inr later ↦ rw later (
        All-sorted_in (λ y. order x y ≡ true) r xs (below r x later) s.0,
        sorted_in-Sorted r xs s.1,
      )
    ]

    sort-Sorted : (xs : List Row) → Sorted order (sort xs)
    unfolding sort
    sort-Sorted [] = tt
    sort-Sorted (x ∷ xs) = sorted_in-Sorted x (sort xs) (sort-Sorted xs)

    pub sort-Listing : (xs : List Row) → Listing order xs (sort xs)
    sort-Listing xs = (sort-Perm xs, sort-Sorted xs)

    at_least :
        (x y : Row) (xs : List Row) → Sorted order (x ∷ xs) → Mem y (x ∷ xs) → order x y ≡ true
    at_least x y xs s m =
        Or.elim (Bool-set (order x y) true) (mem-cons.0 m)
          (λ e. subst (λ z. order x z ≡ true) (sym e) (itself x)) (in_rest xs s.0)
      where
        itself : (z : Row) → order z z ≡ true
        itself z = elim (lawful.total z z) [ inl h ↦ h | inr h ↦ h ]

        in_rest : (ys : List Row) → All (λ z. order x z ≡ true) ys → Mem y ys → order x y ≡ true
        in_rest [] h k = absurd (not-mem-nil k)
        in_rest (z ∷ ys) h k =
            Or.elim (Bool-set (order x y) true) (mem-cons.0 k)
              (λ e. subst (λ w. order x w ≡ true) (sym e) h.0) (in_rest ys h.1)

    pub Sorted-unique :
        (xs ys : List Row) → NoTies xs → Sorted order xs → Sorted order ys → Perm xs ys → xs ≡ ys
    Sorted-unique [] ys ties s t p = Perm.nil-eq p
    Sorted-unique (x ∷ xs) [] ties s t p = Perm.eq-nil p
    Sorted-unique (x ∷ xs) (y ∷ ys) ties s t p =
        let y_in : Mem y (x ∷ xs) = (Perm.mem_iff p).1 mem-cons_self in
        let x_in : Mem x (y ∷ ys) = (Perm.mem_iff p).0 mem-cons_self in
        let same : x ≡ y =
          ties x y mem-cons_self y_in (at_least x y xs s y_in) (at_least y x ys t x_in) in
        let rest : xs ≡ ys =
          Sorted-unique xs ys (λ a b m k. ties a b (mem-cons_of_mem x m) (mem-cons_of_mem x k)) s.1
            t.1 (Perm.cons_inv (subst (λ z. Perm (x ∷ xs) (z ∷ ys)) (sym same) p)) in
        ap (λ z. z ∷ xs) same ∙ ap (λ zs. y ∷ zs) rest
