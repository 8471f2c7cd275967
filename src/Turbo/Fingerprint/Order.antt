-- ===== src/Turbo/Fingerprint/Order.antt =====
-- The order in which the asset files are given does not matter.
use mathlib.Core.List.{Permᴰ}
use mathlib.Core.List.Permᴰ
use ltsearch.Common.{
  ℕ, ◌≡◌, ◌≢◌, refl, sym, ap, ◌∙◌, subst, true, false, List, [], ◌∷◌, map, In, Distinct, inl, inr,
  arith, Bool-cases,
}
use ltsearch.Turbo.Codec.{TurboQuantConfig}
use ltsearch.Turbo.Fingerprint.{Asset, name_less, insert_asset, sort_assets, fingerprint}

name_less-asym : (a b : List ℕ) → name_less a b ≡ true → name_less b a ≡ false
unfolding name_less
name_less-asym [] [] h = absurd (ground (arith, h))
name_less-asym [] (d ∷ t) h = refl
name_less-asym (c ∷ s) [] h = absurd (ground (arith, h))
name_less-asym (c ∷ s) (d ∷ t) h = ground (arith, h, name_less-asym s t)

name_less-total : (a b : List ℕ) → a ≢ b → name_less a b ≡ false → name_less b a ≡ true
unfolding name_less
name_less-total [] [] ne h = absurd (ne refl)
name_less-total [] (d ∷ t) ne h = absurd (ground (arith, h))
name_less-total (c ∷ s) [] ne h = refl
name_less-total (c ∷ s) (d ∷ t) ne h = ground (arith, h, ne, name_less-total s t)

insert_asset-first :
    (a b : Asset) (bs : List Asset)
    → name_less b.0 a.0 ≡ false
    → insert_asset a (b ∷ bs) ≡ a ∷ b ∷ bs
unfolding insert_asset
insert_asset-first a b bs h = ground (arith, h)

insert_asset-later :
    (a b : Asset) (bs : List Asset)
    → name_less b.0 a.0 ≡ true
    → insert_asset a (b ∷ bs) ≡ b ∷ insert_asset a bs
unfolding insert_asset
insert_asset-later a b bs h = ground (arith, h)

name_less_trans :
    (a b c : List ℕ) → name_less a b ≡ true → name_less b c ≡ true → name_less a c ≡ true
unfolding name_less
name_less_trans [] b [] h l = absurd (ground (arith, name_less-asym b [] l, h))
name_less_trans [] b (e ∷ u) h l = refl
name_less_trans (c ∷ s) [] e h l = absurd (ground (arith, h))
name_less_trans (c ∷ s) (d ∷ t) [] h l = absurd (ground (arith, l))
name_less_trans (c ∷ s) (d ∷ t) (e ∷ u) h l = ground (arith, h, l, name_less_trans s t u)

insert_asset-nil : (a : Asset) → insert_asset a [] ≡ a ∷ []
unfolding insert_asset
insert_asset-nil a = refl

-- The lower of two files first, the other in front of the rest.
insert_asset-pair :
    (a b : Asset) (xs : List Asset)
    → name_less a.0 b.0 ≡ true
    → insert_asset a (insert_asset b xs) ≡ insert_asset b (insert_asset a xs)
insert_asset-pair a b [] less = ground (
  arith,
  insert_asset-later b a [] less,
  insert_asset-first a b [] (name_less-asym a.0 b.0 less),
  insert_asset-nil a,
  insert_asset-nil b,
)
insert_asset-pair a b (y ∷ ys) less = elim (Bool-cases (name_less y.0 a.0)) [
  | inl y_a ↦ ground (
    arith,
    insert_asset-later a y ys y_a,
    insert_asset-later b y ys (below y_a),
    insert_asset-later a y (insert_asset b ys) y_a,
    insert_asset-later b y (insert_asset a ys) (below y_a),
    insert_asset-pair a b ys less,
  )
  | inr a_y ↦ elim (Bool-cases (name_less y.0 b.0)) [
    | inl y_b ↦ ground (
      arith,
      insert_asset-later b y ys y_b,
      insert_asset-first a y ys a_y,
      insert_asset-first a y (insert_asset b ys) a_y,
      insert_asset-later b a (y ∷ ys) less,
    )
    | inr b_y ↦ ground (
      arith,
      insert_asset-first b y ys b_y,
      insert_asset-first a y ys a_y,
      insert_asset-first a b (y ∷ ys) (name_less-asym a.0 b.0 less),
      insert_asset-later b a (y ∷ ys) less,
    )
  ]
]
  where
    below : name_less y.0 a.0 ≡ true → name_less y.0 b.0 ≡ true
    below y_a = name_less_trans y.0 a.0 b.0 y_a less

insert_asset-swap :
    (a b : Asset) (xs : List Asset)
    → a.0 ≢ b.0
    → insert_asset a (insert_asset b xs) ≡ insert_asset b (insert_asset a xs)
insert_asset-swap a b xs apart = elim (Bool-cases (name_less a.0 b.0)) [
  | inl less ↦ insert_asset-pair a b xs less
  | inr more ↦ sym (insert_asset-pair b a xs (name_less-total a.0 b.0 apart more))
]

abbrev pub names : List Asset → List (List ℕ)
names xs = map (λ (a : Asset). a.0) xs

-- The same files in another order have the same names.
names-perm : {xs ys : List Asset} (n : List ℕ) → Permᴰ xs ys → In n (names xs) → In n (names ys)
names-perm n Permᴰ.nil m = m
names-perm n (Permᴰ.cons e p) (inl h) = inl (h ∙ ap (λ (a : Asset). a.0) e)
names-perm n (Permᴰ.cons e p) (inr m) = inr (names-perm n p m)
names-perm n (Permᴰ.swap e f) (inl h) = inr (inl (h ∙ ap (λ (a : Asset). a.0) e))
names-perm n (Permᴰ.swap e f) (inr (inl h)) = inl (h ∙ ap (λ (a : Asset). a.0) f)
names-perm n (Permᴰ.swap e f) (inr (inr m)) = inr (inr m)
names-perm n (Permᴰ.trans p q) m = names-perm n q (names-perm n p m)

Distinct-perm : {xs ys : List Asset} → Permᴰ xs ys → Distinct (names xs) → Distinct (names ys)
Distinct-perm Permᴰ.nil d = tt
Distinct-perm (Permᴰ.cons {a = a} {b = b} {l₁ = l₁} {l₂ = l₂} e p) (out, d) = (
  λ m. out (
      subst (λ n. In n (names l₁)) (sym (ap (λ (a : Asset). a.0) e))
        (names-perm b.0 (Permᴰ.symm p) m)),
  Distinct-perm p d,
)
Distinct-perm (Permᴰ.swap {a = a} {b = b} {a' = a'} {b' = b'} {l = l} e f) (out, (out', d)) =
    let to_b : a.0 ≡ b'.0 = ap (λ (a : Asset). a.0) e in
    let to_a : b.0 ≡ a'.0 = ap (λ (a : Asset). a.0) f in
    (
      λ m. elim m [
        | inl same ↦ out (inl (to_b ∙ sym same ∙ sym to_a))
        | inr n ↦ out' (subst (λ n. In n (names l)) (sym to_a) n)
      ],
      (λ m. out (inr (subst (λ n. In n (names l)) (sym to_b) m)), d),
    )
Distinct-perm (Permᴰ.trans p q) d = Distinct-perm q (Distinct-perm p d)

sort_assets-perm :
    {xs ys : List Asset} → Permᴰ xs ys → Distinct (names xs) → sort_assets xs ≡ sort_assets ys
unfolding sort_assets
sort_assets-perm Permᴰ.nil d = refl
sort_assets-perm (Permᴰ.cons {b = b} {l₁ = l₁} e p) (out, d) =
    ap (λ a. insert_asset a (sort_assets l₁)) e ∙ ap (insert_asset b) (sort_assets-perm p d)
sort_assets-perm (Permᴰ.swap {a = a} {b = b} {a' = a'} {b' = b'} {l = l} e f) (out, d) =
    insert_asset-swap a b (sort_assets l) (λ same. out (inl same))
    ∙ ap (λ x. insert_asset x (insert_asset a (sort_assets l))) f
    ∙ ap (λ x. insert_asset a' (insert_asset x (sort_assets l))) e
sort_assets-perm (Permᴰ.trans p q) d = sort_assets-perm p d ∙ sort_assets-perm q (Distinct-perm p d)

-- The fingerprint does not depend on the order of the asset files, if their names are distinct.
fingerprint-perm :
    (sha256 : List ℕ → List ℕ) (config : TurboQuantConfig) (files files' : List Asset)
    → Permᴰ files files'
    → Distinct (names files)
    → fingerprint sha256 config files ≡ fingerprint sha256 config files'
unfolding fingerprint
fingerprint-perm sha256 config files files' p d = rw (sort_assets-perm p d) refl
