-- ===== src/Handles/Counted.antt =====
-- A struct hinfo counts its handles, so that none is used after it is deleted.
use file_system_yfs.Base.{
  ℕ, ◌+◌, ◌^◌, ◌≤◌, ◌<◌, ◌≡◌, ◌≢◌, ◌⊎◌, refl, sym, ap, ◌∙◌, true, false, ◌==◌, Bool-cases, Option,
  none, some, inl, inr, contradiction, arith,
}
use file_system_yfs.Base.Text.{Text, equal, equal_self, equal_sound}
use file_system_yfs.Handles.{Hinfo, HandleMgr, set_hmap, set_heap, set_live, set_hinfo, new_hinfo}

-- The map and the structs refer to each other, and each struct counts its handles; what is deleted has none.
pub record IsCounted (mgr : HandleMgr) (live : ℕ → ℕ) : Type 0 where
  pub listed :
      (m : Text) (a : ℕ) → mgr.hmap m ≡ some a → (h : Hinfo) × (mgr.heap a ≡ some h) × (h.m ≡ m)
  pub stored :
      (a : ℕ) (h : Hinfo)
      → mgr.heap a ≡ some h
      → (mgr.hmap h.m ≡ some a) × (h.refcnt ≡ live a) × (live a < 2 ^ 31)
  pub freed : (a : ℕ) → mgr.heap a ≡ none → live a ≡ 0
  pub fresh : (a : ℕ) → mgr.next ≤ a → mgr.heap a ≡ none

pub set_heap_same : (f : ℕ → Option Hinfo) (a : ℕ) (x : Option Hinfo) → set_heap f a x a ≡ x
unfolding set_heap
set_heap_same f a x = let e : (a == a) ≡ true = ground arith in rw e refl

set_heap_other :
    (f : ℕ → Option Hinfo) (a b : ℕ) (x : Option Hinfo) → b ≢ a → set_heap f a x b ≡ f b
unfolding set_heap
set_heap_other f a b x ne = let e : (b == a) ≡ false = ground arith in rw e refl

pub set_live_same : (f : ℕ → ℕ) (a n : ℕ) → set_live f a n a ≡ n
unfolding set_live
set_live_same f a n = let e : (a == a) ≡ true = ground arith in rw e refl

pub set_live_other : (f : ℕ → ℕ) (a b n : ℕ) → b ≢ a → set_live f a n b ≡ f b
unfolding set_live
set_live_other f a b n ne = let e : (b == a) ≡ false = ground arith in rw e refl

same_address : (a b : ℕ) → (a ≡ b) ⊎ (a ≢ b)
same_address a b = ground arith

some_inj {ℓ} : {A : Type ℓ} (x y : A) → some x ≡ some y → x ≡ y
some_inj x y e = cc

set_hmap_same : (f : Text → Option ℕ) (m : Text) (x : Option ℕ) → set_hmap f m x m ≡ x
unfolding set_hmap
set_hmap_same f m x = rw (equal_self m) refl

set_hmap_other :
    (f : Text → Option ℕ) (m i : Text) (x : Option ℕ) → equal i m ≡ false → set_hmap f m x i ≡ f i
unfolding set_hmap
set_hmap_other f m i x e = rw e refl

pub not_none {ℓ ℓ'} : {A : Type ℓ} {B : Type ℓ'} (x : A) (o : Option A) → o ≡ none → o ≡ some x → B
not_none x o e e' = let e'' : none ≡ some x = sym e ∙ e' in absurd (ground arith)

-- The struct at an address is changed, with its count.
pub set_hinfo-IsCounted :
    (mgr : HandleMgr) (live live' : ℕ → ℕ) (a : ℕ) (h h' : Hinfo)
    → IsCounted mgr live
    → mgr.heap a ≡ some h
    → h'.m ≡ h.m
    → h'.refcnt ≡ live' a
    → live' a < 2 ^ 31
    → ((b : ℕ) → b ≢ a → live' b ≡ live b)
    → IsCounted (set_hinfo mgr a h') live'
unfolding set_hinfo
set_hinfo-IsCounted mgr live live' a h h' c found name count small others =
    let at_a = set_heap_same mgr.heap a (some h') in
    let (mapped, counted, bound) = c.stored a h found in
    record {
      listed = λ m b e.
          let (h0, found0, name0) = c.listed m b e in
          elim (same_address b a) [
            | inl q ↦
                let same : h ≡ h0 = some_inj h h0 (sym found ∙ (ap mgr.heap (sym q) ∙ found0)) in
                (h', rw q at_a, name ∙ (ap (λ k. k.m) same ∙ name0))
            | inr ne ↦ (h0, set_heap_other mgr.heap a b (some h') ne ∙ found0, name0)
          ];
      stored = λ b k e. elim (same_address b a) [
        | inl q ↦
            let same : h' ≡ k =
              some_inj h' k (sym at_a ∙ (ap (set_heap mgr.heap a (some h')) (sym q) ∙ e)) in
            rw (q, ← same) (ap mgr.hmap name ∙ mapped, count, small)
        | inr ne ↦
            rw (others b ne) (c.stored b k (sym (set_heap_other mgr.heap a b (some h') ne) ∙ e))
      ];
      freed = λ b e. elim (same_address b a) [
        | inl q ↦ not_none h' _ (ap (set_heap mgr.heap a (some h')) (sym q) ∙ e) at_a
        | inr ne ↦ others b ne ∙ c.freed b (sym (set_heap_other mgr.heap a b (some h') ne) ∙ e)
      ];
      fresh = λ b le. elim (same_address b a) [
        | inl q ↦ not_none h _ (ap mgr.heap (sym q) ∙ c.fresh b le) found
        | inr ne ↦ set_heap_other mgr.heap a b (some h') ne ∙ c.fresh b le
      ];
    }

-- A struct is made for a server that has none.
pub new-IsCounted :
    (mgr : HandleMgr) (live live' : ℕ → ℕ) (m : Text)
    → IsCounted mgr live
    → mgr.hmap m ≡ none
    → live' mgr.next ≡ 1
    → ((b : ℕ) → b ≢ mgr.next → live' b ≡ live b)
    → IsCounted
        (record {
          hmap = set_hmap mgr.hmap m (some mgr.next);
          heap = set_heap mgr.heap mgr.next (some (new_hinfo m));
          next = mgr.next + 1;
        })
        live'
unfolding new_hinfo
new-IsCounted mgr live live' m c missing one others =
    let a = mgr.next in
    let new = some (new_hinfo m) in
    let at_a = set_heap_same mgr.heap a new in
    let before = c.fresh a (omega arith) in
    record {
      listed = λ m' b e. elim (Bool-cases (equal m' m)) [
        | inl q ↦
            let name = equal_sound m' m q in
            let same : a ≡ b = some_inj a b (
              sym (set_hmap_same mgr.hmap m (some a))
              ∙ (ap (set_hmap mgr.hmap m (some a)) (sym name) ∙ e)) in
            (new_hinfo m, rw (← same) at_a, sym name)
        | inr q ↦
            let (h0, found0, name0) =
              c.listed m' b (sym (set_hmap_other mgr.hmap m m' (some a) q) ∙ e) in
            let ne : b ≢ a = λ r. not_none h0 _ (ap mgr.heap r ∙ before) found0 in
            (h0, set_heap_other mgr.heap a b new ne ∙ found0, name0)
      ];
      stored = λ b k e. elim (same_address b a) [
        | inl q ↦
            let same : new_hinfo m ≡ k =
              some_inj (new_hinfo m) k (sym at_a ∙ (ap (set_heap mgr.heap a new) (sym q) ∙ e)) in
            rw (q, ← same) (set_hmap_same mgr.hmap m (some a), sym one, omega (arith, one))
        | inr ne ↦
            let (mapped, counted, bound) =
              c.stored b k (sym (set_heap_other mgr.heap a b new ne) ∙ e) in
            rw (others b ne) (elim (Bool-cases (equal k.m m)) [
              | inl q ↦ not_none b _ (ap mgr.hmap (equal_sound k.m m q) ∙ missing) mapped
              | inr q ↦ (set_hmap_other mgr.hmap m k.m (some a) q ∙ mapped, counted, bound)
            ])
      ];
      freed = λ b e. elim (same_address b a) [
        | inl q ↦ not_none (new_hinfo m) _ (ap (set_heap mgr.heap a new) (sym q) ∙ e) at_a
        | inr ne ↦ others b ne ∙ c.freed b (sym (set_heap_other mgr.heap a b new ne) ∙ e)
      ];
      fresh =
          λ b le. set_heap_other mgr.heap a b new (λ q. omega (arith, q)) ∙ c.fresh b (omega arith);
    }

-- A struct without handles is deleted.
pub erase-IsCounted :
    (mgr : HandleMgr) (live : ℕ → ℕ) (m : Text) (a : ℕ) (h : Hinfo)
    → IsCounted mgr live
    → mgr.hmap m ≡ some a
    → mgr.heap a ≡ some h
    → h.refcnt ≡ 0
    → IsCounted
        (record mgr { hmap = set_hmap mgr.hmap m none; heap = set_heap mgr.heap a none })
        live
erase-IsCounted mgr live m a h c mapped found zero_count =
    let at_a = set_heap_same mgr.heap a none in
    let at_m = set_hmap_same mgr.hmap m none in
    let (mapped', counted, bound) = c.stored a h found in
    let (h1, found1, name1) = c.listed m a mapped in
    record {
      listed = λ m' b e. elim (Bool-cases (equal m' m)) [
        | inl q ↦ not_none b _ at_m (ap (set_hmap mgr.hmap m none) (sym (equal_sound m' m q)) ∙ e)
        | inr q ↦
            let (h0, found0, name0) =
              c.listed m' b (sym (set_hmap_other mgr.hmap m m' none q) ∙ e) in
            let ne : b ≢ a = λ r.
              let same = some_inj h0 h1 (sym found0 ∙ (ap mgr.heap r ∙ found1)) in
              let name : m' ≡ m = sym name0 ∙ (ap (λ k. k.m) same ∙ name1) in
              contradiction (sym q ∙ (ap (λ t. equal t m) name ∙ equal_self m)) in
            (h0, set_heap_other mgr.heap a b none ne ∙ found0, name0)
      ];
      stored = λ b k e. elim (same_address b a) [
        | inl q ↦ not_none k _ at_a (ap (set_heap mgr.heap a none) (sym q) ∙ e)
        | inr ne ↦
            let (mapped2, counted2, bound2) =
              c.stored b k (sym (set_heap_other mgr.heap a b none ne) ∙ e) in
            elim (Bool-cases (equal k.m m)) [
              | inl q ↦
                  absurd
                    (ne (some_inj b a (sym mapped2 ∙ (ap mgr.hmap (equal_sound k.m m q) ∙ mapped))))
              | inr q ↦ (set_hmap_other mgr.hmap m k.m none q ∙ mapped2, counted2, bound2)
            ]
      ];
      freed = λ b e. elim (same_address b a) [
        | inl q ↦ ap live q ∙ (sym counted ∙ zero_count)
        | inr ne ↦ c.freed b (sym (set_heap_other mgr.heap a b none ne) ∙ e)
      ];
      fresh = λ b le. elim (same_address b a) [
        | inl q ↦ ap (set_heap mgr.heap a none) q ∙ at_a
        | inr ne ↦ set_heap_other mgr.heap a b none ne ∙ c.fresh b le
      ];
    }
