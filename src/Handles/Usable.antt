-- ===== src/Handles/Usable.antt =====
-- What handle_mgr and safebind do keeps the counts, and uses no struct hinfo that is deleted.
use file_system_yfs.Base.{
  ℕ, ◌+◌, ◌-◌, ◌%◌, ◌^◌, ◌<◌, ◌≡◌, ◌≢◌, refl, sym, ap, ◌∙◌, Bool, true, false, ◌&&◌, ◌==◌, ==_iff,
  Bool-cases, Option-cases, Option, none, some, if◌then◌else◌, Holds, inl, inr, arith,
}
use file_system_yfs.Base.Text.{Text}
use file_system_yfs.Handles.{
  Hinfo, HandleMgr, Users, set_live, set_hinfo, incremented, decremented, get_handle,
  delete_handle_wo, delete_handle, done_handle, safebind, no_handles, Step, gets, gets_null, binds,
  dones, deletes, Reach, here, next,
}
use file_system_yfs.Handles.Counted.{
  IsCounted, set_live_same, set_live_other, not_none, set_hinfo-IsCounted, new-IsCounted,
  erase-IsCounted,
}

-- The counts after get_handle, when there are fewer than 2^31 handles of the address.
unfoldable AfterGet : (ℕ → ℕ) → HandleMgr × Option ℕ → Type 0
AfterGet live (mgr, none) = IsCounted mgr live
AfterGet live (mgr, some a) = live a + 1 < 2 ^ 31 → IsCounted mgr (set_live live a (live a + 1))

incremented_lem :
    (h : Hinfo) (n : ℕ)
    → h.refcnt ≡ n
    → n + 1 < 2 ^ 31
    → ((incremented h).m ≡ h.m) × ((incremented h).refcnt ≡ n + 1)
unfolding incremented
incremented_lem h n counted small = (refl, omega (arith, counted, small))

-- What get_handle does with a struct that is there, where `del` is that the server was given up.
got-AfterGet :
    (mgr : HandleMgr) (live : ℕ → ℕ) (a : ℕ) (h : Hinfo)
    → IsCounted mgr live
    → mgr.heap a ≡ some h
    → (del : Bool)
    → Holds
        (AfterGet live)
        (if del then some (mgr, none) else some (set_hinfo mgr a (incremented h), some a))
unfolding Holds AfterGet
got-AfterGet mgr live a h c found true = c
got-AfterGet mgr live a h c found false = λ small.
    let (name, count) = incremented_lem h (live a) ((c.stored a h found).1) small in
    let now = set_live_same live a (live a + 1) in
    set_hinfo-IsCounted mgr live (set_live live a (live a + 1)) a h (incremented h) c found name
      (count ∙ sym now) (rw now small) (λ b ne. set_live_other live a b _ ne)

get_handle-AfterGet :
    (mgr : HandleMgr) (live : ℕ → ℕ) (m : Text)
    → IsCounted mgr live
    → Holds (AfterGet live) (get_handle mgr m)
unfolding Holds get_handle AfterGet
get_handle-AfterGet mgr live m c = elim (Option-cases (mgr.hmap m)) [
  | inl missing ↦
      rw (get_handle, missing)
        (λ small.
          new-IsCounted mgr live _ m c missing
            (set_live_same live mgr.next _
              ∙ ap (λ n. n + 1) (c.freed mgr.next (c.fresh mgr.next (omega arith))))
            (λ b ne. set_live_other live mgr.next b _ ne))
  | inr (a, mapped) ↦
      let (h, found, name) = c.listed m a mapped in
      rw (get_handle, mapped, found) (got-AfterGet mgr live a h c found h.del)
]

delete_handle_wo-IsCounted :
    (mgr : HandleMgr) (live : ℕ → ℕ) (m : Text)
    → IsCounted mgr live
    → Holds (λ mgr'. IsCounted mgr' live) (delete_handle_wo mgr m)
unfolding Holds delete_handle_wo
delete_handle_wo-IsCounted mgr live m c = elim (Option-cases (mgr.hmap m)) [
  | inl missing ↦ rw (delete_handle_wo, missing) c
  | inr (a, mapped) ↦
      let (h, found, name) = c.listed m a mapped in
      let (mapped', counted, bound) = c.stored a h found in
      elim (Bool-cases (h.refcnt == 0)) [
        | inl e ↦
            rw (delete_handle_wo, mapped, found, e)
              (erase-IsCounted mgr live m a h c mapped found ((==_iff h.refcnt 0).0 e))
        | inr e ↦
            rw (delete_handle_wo, mapped, found, e)
              (set_hinfo-IsCounted mgr live live a h (record h { del = true }) c found refl counted
                bound (λ b ne. refl))
      ]
]

done_handle-IsCounted :
    (mgr : HandleMgr) (live : ℕ → ℕ) (a : ℕ)
    → IsCounted mgr live
    → 0 < live a
    → Holds (λ mgr'. IsCounted mgr' (set_live live a (live a - 1))) (done_handle mgr a)
unfolding Holds done_handle decremented
done_handle-IsCounted mgr live a c used = elim (Option-cases (mgr.heap a)) [
  | inl missing ↦ let zero_live = c.freed a missing in absurd (omega arith)
  | inr (h, found) ↦
      let (mapped, counted, bound) = c.stored a h found in
      let count : (h.refcnt + (2 ^ 32 - 1)) % 2 ^ 32 ≡ live a - 1 =
        omega (arith, counted, bound, used) in
      let now = set_live_same live a (live a - 1) in
      let kept =
        set_hinfo-IsCounted mgr live (set_live live a (live a - 1)) a h (decremented h) c found refl
          (count ∙ sym now) (rw now (omega (arith, bound)))
          (λ b ne. set_live_other live a b _ ne) in
      elim (Bool-cases (((decremented h).refcnt == 0) && h.del)) [
        | inl e ↦ rw (done_handle, found, e) (delete_handle_wo-IsCounted _ _ h.m kept)
        | inr e ↦ rw (done_handle, found, e) kept
      ]
]

safebind-IsCounted :
    (mgr : HandleMgr) (live : ℕ → ℕ) (a : ℕ) (bound : Option ℕ)
    → IsCounted mgr live
    → 0 < live a
    → Holds (λ r. IsCounted r.0 live) (safebind mgr a bound)
unfolding Holds safebind
safebind-IsCounted mgr live a bound c used = elim (Option-cases (mgr.heap a)) [
  | inl missing ↦ let zero_live = c.freed a missing in absurd (omega arith)
  | inr (h, found) ↦
      let (mapped, counted, small) = c.stored a h found in
      let changed = λ (h' : Hinfo) (name : h'.m ≡ h.m) (count : h'.refcnt ≡ h.refcnt).
        set_hinfo-IsCounted mgr live live a h h' c found name (count ∙ counted) small
          (λ b ne. refl) in
      elim (Bool-cases h.del) [
        | inl d ↦ rw (safebind, found, d) c
        | inr d ↦ elim (Option-cases h.cl) [
          | inr (cl, e) ↦ rw (safebind, found, d, e) c
          | inl e ↦ elim (Option-cases bound) [
            | inl failed ↦
                rw (safebind, found, d, e, failed) (changed (record h { del = true }) refl refl)
            | inr (cl, ok) ↦
                rw (safebind, found, d, e, ok) (changed (record h { cl = some cl }) refl refl)
          ]
        ]
      ]
]

Holds-some : {A : Type 0} (P : A → Type 0) (o : Option A) → Holds P o → o ≢ none
unfolding Holds
Holds-some P none h = λ e. h
Holds-some P (some a) h = λ e. absurd (ground arith)

counted_here :
    (mgr : HandleMgr) (live : ℕ → ℕ) (a : ℕ)
    → IsCounted mgr live
    → 0 < live a
    → Holds (λ h. h.refcnt ≡ live a) (mgr.heap a)
unfolding Holds
counted_here mgr live a c used = elim (Option-cases (mgr.heap a)) [
  | inl missing ↦ let zero_live = c.freed a missing in absurd (omega arith)
  | inr (h, found) ↦ rw found ((c.stored a h found).1)
]

Step-IsCounted : {a b : Users} → Step a b → IsCounted a.mgr a.live → IsCounted b.mgr b.live
unfolding Holds AfterGet delete_handle
Step-IsCounted (gets sys m mgr' a e small) c =
    (rw e at (get_handle-AfterGet sys.mgr sys.live m c)) small
Step-IsCounted (gets_null sys m mgr' e) c = rw e at (get_handle-AfterGet sys.mgr sys.live m c)
Step-IsCounted (binds sys a bound cl mgr' used e) c =
    rw e at (safebind-IsCounted sys.mgr sys.live a bound c used)
Step-IsCounted (dones sys a mgr' used e) c =
    rw e at (done_handle-IsCounted sys.mgr sys.live a c used)
Step-IsCounted (deletes sys m mgr' e) c = rw e at (delete_handle_wo-IsCounted sys.mgr sys.live m c)

Reach-IsCounted : (sys : Users) → Reach no_handles sys → IsCounted sys.mgr sys.live
Reach-IsCounted sys here = record {
  listed = λ m a e. not_none a none refl e;
  stored = λ a h e. not_none h none refl e;
  freed = λ a e. refl;
  fresh = λ a le. refl;
}
Reach-IsCounted sys (next r step) = Step-IsCounted step (Reach-IsCounted _ r)

-- In every state that handles and their manager get to, get_handle and delete_handle, whatever the
-- server, use no struct hinfo that is deleted. A handle that is not destroyed has its struct,
-- which counts all the handles of it, and binding and giving up the handle use no struct that is
-- deleted.
pub Reach-usable :
    (sys : Users) (m : Text) (a : ℕ) (bound : Option ℕ)
    → Reach no_handles sys
    → (get_handle sys.mgr m ≢ none)
      × (delete_handle sys.mgr m ≢ none)
      × (0 < sys.live a
          → Holds (λ h. h.refcnt ≡ sys.live a) (sys.mgr.heap a)
            × (safebind sys.mgr a bound ≢ none)
            × (done_handle sys.mgr a ≢ none))
unfolding delete_handle
Reach-usable sys m a bound r =
    let c = Reach-IsCounted sys r in
    (
      Holds-some _ _ (get_handle-AfterGet sys.mgr sys.live m c),
      Holds-some _ _ (delete_handle_wo-IsCounted sys.mgr sys.live m c),
      λ used. (
        counted_here sys.mgr sys.live a c used,
        Holds-some _ _ (safebind-IsCounted sys.mgr sys.live a bound c used),
        Holds-some _ _ (done_handle-IsCounted sys.mgr sys.live a c used),
      ),
    )
