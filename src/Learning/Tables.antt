-- ===== src/Learning/Tables.antt =====
-- The tables of the connections (examples/controller/Controller.hh): a write to one is seen in it, and
-- in no other.
use libfluid.Prelude.{
  ℕ, ◌<◌, ◌≡◌, ◌≢◌, refl, sym, ◌∙◌, subst, ◌⊎◌, inl, inr, none, some, List, [], ◌∷◌, ◌++◌, arith,
  ◌==◌, ==_iff, if◌then◌else◌, length, length-append, length-set, get_elem?, set,
  get_elem?-set_same, get_elem?-set_other, get_elem?-snoc_same, get_elem?-snoc_other, Bool-cases,
}
use libfluid.Learning.{L2Table, find, assign}

pub find-assign :
    (j v k : ℕ) (m : L2Table) → find k (assign j v m) ≡ (if j == k then some v else find k m)
unfolding find assign
find-assign j v k [] = refl
find-assign j v k ((i, u) ∷ m) = ground (arith, find-assign j v k m)

find-cons :
    (o n c i : ℕ) (m : List (ℕ × ℕ))
    → find c ((o, n) ∷ m) ≡ some i
    → ((c ≡ o) × (i ≡ n)) ⊎ ((c ≢ o) × (find c m ≡ some i))
unfolding find
find-cons o n c i m e = elim (Bool-cases (o == c)) [
  | inl hit ↦ inl (ground (arith, hit), ground (arith, hit))
  | inr miss ↦ inr ((λ same. ground (arith, same)), ground (arith, miss))
]

-- What a connection has of the tables of all: `agrees c t` for the table t of each connection c. No
-- two connections share a table.
pub record Owns (tables : List L2Table) (owners : List (ℕ × ℕ)) (agrees : ℕ → L2Table → Type 0)
    : Type 0 where
  pub inside : (c i : ℕ) → find c owners ≡ some i → i < length tables
  pub apart : (c d i : ℕ) → find c owners ≡ some i → find d owners ≡ some i → c ≡ d
  pub holds :
      (c i : ℕ) (t : L2Table) → find c owners ≡ some i → get_elem? tables i ≡ some t → agrees c t

module _ (tables : List L2Table) (owners : List (ℕ × ℕ)) (p q : ℕ → L2Table → Type 0) where
  -- A connection without a table changes nothing.
  pub Owns-other :
      (o : ℕ)
      → find o owners ≡ none
      → ((c : ℕ) (t : L2Table) → c ≢ o → p c t → q c t)
      → Owns tables owners p
      → Owns tables owners q
  Owns-other o e f h = record {
    inside = h.inside;
    apart = h.apart;
    holds = λ c i t k g. f c t (λ same. ground (arith, same)) (h.holds c i t k g);
  }

  pub Owns-set :
      (o i : ℕ) (t : L2Table)
      → find o owners ≡ some i
      → q o t
      → ((c : ℕ) (u : L2Table) → c ≢ o → p c u → q c u)
      → Owns tables owners p
      → Owns (set tables i t) owners q
  Owns-set o i t e new f h = record {
    inside = λ c j k. omega (arith, length-set tables i t, h.inside c j k);
    apart = h.apart;
    holds = λ c j u k g. elim (Bool-cases (j == i)) [
      | inl hit ↦
          let same : j ≡ i = (==_iff j i).0 hit in
          let owner : c ≡ o = h.apart c o i (subst (λ n. find c owners ≡ some n) same k) e in
          let table : u ≡ t =
            ground (arith, same, get_elem?-set_same tables i t (h.inside o i e)) in
          subst (λ n. q n u) (sym owner) (subst (q o) (sym table) new)
      | inr miss ↦
          let differ : i ≢ j = λ n. ground (arith, n) in
          let old : get_elem? tables j ≡ some u =
            sym (get_elem?-set_other tables i j t differ) ∙ g in
          f c u (λ n. ground (arith, n)) (h.holds c j u k old)
    ];
  }

  -- A new table for a connection.
  pub Owns-new :
      (o : ℕ) (t : L2Table)
      → q o t
      → ((c : ℕ) (u : L2Table) → c ≢ o → p c u → q c u)
      → Owns tables owners p
      → Owns (tables ++ t ∷ []) ((o, length tables) ∷ owners) q
  Owns-new o t new f h = record {
    inside = λ c i k. elim (find-cons o (length tables) c i owners k) [
      | inl (same, last) ↦ omega (arith, last, length-append tables (t ∷ []))
      | inr (differ, old) ↦ omega (arith, h.inside c i old, length-append tables (t ∷ []))
    ];
    apart = λ c d i k l. elim (find-cons o (length tables) c i owners k) [
      | inl (same, last) ↦ elim (find-cons o (length tables) d i owners l) [
        | inl (same', last') ↦ same ∙ sym same'
        | inr (differ, old) ↦ absurd (omega (arith, last, h.inside d i old))
      ]
      | inr (differ, old) ↦ elim (find-cons o (length tables) d i owners l) [
        | inl (same, last) ↦ absurd (omega (arith, last, h.inside c i old))
        | inr (differ', old') ↦ h.apart c d i old old'
      ]
    ];
    holds = λ c i u k g. elim (find-cons o (length tables) c i owners k) [
      | inl (same, last) ↦
          let table : u ≡ t = ground (arith, last, get_elem?-snoc_same tables t) in
          subst (λ n. q n u) (sym same) (subst (q o) (sym table) new)
      | inr (differ, old) ↦
          let there = get_elem?-snoc_other tables t i (h.inside c i old) in
          f c u differ (h.holds c i u old (sym there ∙ g))
    ];
  }
