-- ===== src/NameNode/Ids/Order.antt =====
-- operator< on data nodes is a strict order, and total up to operator==.
use file_system_yfs.Base.{
  ◌≡◌, refl, sym, ◌↔◌, ◌⊎◌, Bool, true, false, ◌&&◌, ltb, ◌==◌, [], ◌∷◌, inl, inr, Bool-cases,
  contradiction, ==_self, ==_iff, arith,
}
use file_system_yfs.Base.Text.{Text, equal, equal_self, equal_sound}
use file_system_yfs.Caching.{is_before}
use file_system_yfs.NameNode.Ids.{DatanodeId, before_by, before, same}

-- A strict order that is total.
record IsOrder {K : Type 0} (lt : K → K → Bool) : Type 0 where
  pub strict : (x : K) → lt x x ≡ false
  pub trans : (x y z : K) → lt x y ≡ true → lt y z ≡ true → lt x z ≡ true
  pub total : (x y : K) → lt x y ≡ false → lt y x ≡ false → x ≡ y

text_strict : (s : Text) → is_before s s ≡ false
unfolding is_before
text_strict [] = refl
text_strict (c ∷ s) = let h = text_strict s in ground arith

text_trans : (s t u : Text) → is_before s t ≡ true → is_before t u ≡ true → is_before s u ≡ true
unfolding is_before
text_trans s [] u h h' = contradiction h
text_trans s (d ∷ t) [] h h' = contradiction h'
text_trans [] (d ∷ t) (e ∷ u) h h' = refl
text_trans (c ∷ s) (d ∷ t) (e ∷ u) h h' = elim (Bool-cases (is_before s t && is_before t u)) [
  | inl b ↦
      let first : is_before s t ≡ true = ground arith in
      let second : is_before t u ≡ true = ground arith in
      let deep = text_trans s t u first second in ground arith
  | inr b ↦ ground arith
]

text_total : (s t : Text) → is_before s t ≡ false → is_before t s ≡ false → s ≡ t
unfolding is_before
text_total [] [] h h' = refl
text_total [] (d ∷ t) h h' = contradiction (sym h)
text_total (c ∷ s) [] h h' = contradiction (sym h')
text_total (c ∷ s) (d ∷ t) h h' =
    let first : c ≡ d = ground arith in
    let one : is_before s t ≡ false = ground arith in
    let two : is_before t s ≡ false = ground arith in rw (first, text_total s t one two) refl

text-IsOrder : IsOrder is_before
text-IsOrder = record { strict = text_strict; trans = text_trans; total = text_total }

number-IsOrder : IsOrder ltb
number-IsOrder = record {
  strict = λ x. ground arith;
  trans = λ x y z h h'. ground arith;
  total = λ x y h h'. ground arith;
}

by_cases :
    (b b' r : Bool)
    → before_by b b' r ≡ true
    → (b ≡ true) ⊎ ((b ≡ false) × (b' ≡ false) × (r ≡ true))
unfolding before_by
by_cases true b' r h = inl refl
by_cases false true r h = contradiction h
by_cases false false r h = inr (refl, refl, h)

module _ {K : Type 0} (lt : K → K → Bool) (order : IsOrder lt) where
  by_strict : (x : K) (r : Bool) → r ≡ false → before_by (lt x x) (lt x x) r ≡ false
  unfolding before_by
  by_strict x r none = rw (order.strict x) none

  by_trans :
      (x y z : K) (r r' r'' : Bool)
      → (r ≡ true → r' ≡ true → r'' ≡ true)
      → before_by (lt x y) (lt y x) r ≡ true
      → before_by (lt y z) (lt z y) r' ≡ true
      → before_by (lt x z) (lt z x) r'' ≡ true
  unfolding before_by
  by_trans x y z r r' r'' others h h' = elim (by_cases _ _ r h) [
    | inl e ↦ elim (by_cases _ _ r' h') [
      | inl e' ↦ rw (order.trans x y z e e') refl
      | inr (low, high, p) ↦ rw (← order.total y z low high, e) refl
    ]
    | inr (low, high, p) ↦ elim (by_cases _ _ r' h') [
      | inl e' ↦ rw (order.total x y low high, e') refl
      | inr (low', high', p') ↦
          rw (order.total x y low high, order.total y z low' high', order.strict z) (others p p')
    ]
  ]

  by_total :
      (x y : K) (r r' : Bool)
      → before_by (lt x y) (lt y x) r ≡ false
      → before_by (lt y x) (lt x y) r' ≡ false
      → (x ≡ y) × (r ≡ false) × (r' ≡ false)
  unfolding before_by
  by_total x y r r' h h' =
      let one : lt x y ≡ false = ground arith in
      let two : lt y x ≡ false = ground arith in
      (order.total x y one two, ground arith, ground arith)

pub before_strict : (a : DatanodeId) → before a a ≡ false
unfolding before
before_strict a = by_strict is_before text-IsOrder a.ipaddr _ (
    by_strict is_before text-IsOrder a.hostname _
      (by_strict ltb number-IsOrder a.xferport false refl))

pub before_trans : (a b c : DatanodeId) → before a b ≡ true → before b c ≡ true → before a c ≡ true
unfolding before
before_trans a b c = by_trans is_before text-IsOrder a.ipaddr b.ipaddr c.ipaddr _ _ _ (
    by_trans is_before text-IsOrder a.hostname b.hostname c.hostname _ _ _
      (by_trans ltb number-IsOrder a.xferport b.xferport c.xferport false false false (λ h h'. h)))

same_fields :
    (a b : DatanodeId)
    → a.ipaddr ≡ b.ipaddr
    → a.hostname ≡ b.hostname
    → a.xferport ≡ b.xferport
    → a ≡ b
same_fields a b ip name port i = record { ipaddr = ip i; hostname = name i; xferport = port i }

pub before_total : (a b : DatanodeId) → before a b ≡ false → before b a ≡ false → a ≡ b
unfolding before
before_total a b h h' =
    let (ip, rest, rest') = by_total is_before text-IsOrder a.ipaddr b.ipaddr _ _ h h' in
    let (name, port, port') =
      by_total is_before text-IsOrder a.hostname b.hostname _ _ rest rest' in
    let (number, _, _) = by_total ltb number-IsOrder a.xferport b.xferport false false port port' in
    same_fields a b ip name number

pub same_self : (a : DatanodeId) → same a a ≡ true
unfolding same
same_self a = rw (equal_self a.ipaddr, equal_self a.hostname, ==_self a.xferport) refl

pub same_sound : (a b : DatanodeId) → same a b ≡ true → a ≡ b
unfolding same
same_sound a b h =
    let ip : equal a.ipaddr b.ipaddr ≡ true = ground arith in
    let name : equal a.hostname b.hostname ≡ true = ground arith in
    let port : (a.xferport == b.xferport) ≡ true = ground arith in
    same_fields a b (equal_sound _ _ ip) (equal_sound _ _ name) ((==_iff _ _).0 port)

-- operator< is a strict order of data nodes, and of two data nodes neither is before the other just when
-- operator== finds them the same: std::map keeps one entry for each.
pub before-same :
    (a b c : DatanodeId)
    → (before a a ≡ false)
      × (before a b ≡ true → before b c ≡ true → before a c ≡ true)
      × ((same a b ≡ true) ↔ ((before a b ≡ false) × (before b a ≡ false)))
before-same a b c = (
  before_strict a,
  before_trans a b c,
  (
    λ h. let e = same_sound a b h in rw e (before_strict b, before_strict b),
    λ h. rw (before_total a b h.0 h.1) (same_self b),
  ),
)
