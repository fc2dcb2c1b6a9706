-- ===== src/Handles.antt =====
-- The RPC connections of yfs/handle.cc: handle_mgr's map with its counts of handles, and safebind. A pointer
-- to a struct hinfo is its address in a heap; `none` is the use of an address that holds nothing. Making
-- a connection and binding it is done by the RPC library.
mod Counted
pub mod Usable
use file_system_yfs.Base.{
  ℕ, ◌+◌, ◌-◌, ◌%◌, ◌^◌, ◌<◌, ◌≡◌, Bool, true, false, ◌&&◌, ◌==◌, Option, none, some, if◌then◌else◌,
}
use file_system_yfs.Base.Text.{Text, equal}

-- struct hinfo, with the number of its connection, if there is one.
pub record Hinfo : Type 0 where
  pub cl : Option ℕ
  pub refcnt : ℕ
  pub del : Bool
  pub m : Text

-- class handle_mgr: the map, the structs by address, and the address that `new` gives next.
pub record HandleMgr : Type 0 where
  pub hmap : Text → Option ℕ
  pub heap : ℕ → Option Hinfo
  pub next : ℕ

-- handle_mgr::handle_mgr
abbrev pub init : HandleMgr
init = record { hmap = λ m. none; heap = λ a. none; next = 0 }

-- hmap[m] = h, hmap.erase(m)
unfoldable pub set_hmap : (Text → Option ℕ) → Text → Option ℕ → Text → Option ℕ
set_hmap f m x = λ i. if equal i m then x else f i

-- What the address holds is changed, or deleted.
unfoldable pub set_heap : (ℕ → Option Hinfo) → ℕ → Option Hinfo → ℕ → Option Hinfo
set_heap f a x = λ b. if b == a then x else f b

unfoldable pub set_hinfo : HandleMgr → ℕ → Hinfo → HandleMgr
set_hinfo mgr a h = record mgr { heap = set_heap mgr.heap a (some h) }

unfoldable pub new_hinfo : Text → Hinfo
new_hinfo m = record { cl = none; refcnt = 1; del = false; m = m }

-- refcnt++ and refcnt-- of an int
unfoldable pub incremented : Hinfo → Hinfo
incremented h = record h { refcnt = (h.refcnt + 1) % 2 ^ 32 }

unfoldable pub decremented : Hinfo → Hinfo
decremented h = record h { refcnt = (h.refcnt + (2 ^ 32 - 1)) % 2 ^ 32 }

-- handle_mgr::get_handle: the map, and h, where `none` is NULL.
unfoldable pub get_handle : HandleMgr → Text → Option (HandleMgr × Option ℕ)
get_handle mgr m = elim (mgr.hmap m) [
  | none ↦ some (
    record {
      hmap = set_hmap mgr.hmap m (some mgr.next);
      heap = set_heap mgr.heap mgr.next (some (new_hinfo m));
      next = mgr.next + 1;
    },
    some mgr.next,
  )
  | some a ↦ elim (mgr.heap a) [
    | none ↦ none
    | some h ↦ if h.del then some (mgr, none) else some (set_hinfo mgr a (incremented h), some a)
  ]
]

-- handle_mgr::delete_handle_wo
unfoldable pub delete_handle_wo : HandleMgr → Text → Option HandleMgr
delete_handle_wo mgr m = elim (mgr.hmap m) [
  | none ↦ some mgr
  | some a ↦ elim (mgr.heap a) [
    | none ↦ none
    | some h ↦
        if h.refcnt == 0
        then some (record mgr { hmap = set_hmap mgr.hmap m none; heap = set_heap mgr.heap a none })
        else some (set_hinfo mgr a (record h { del = true }))
  ]
]

-- handle_mgr::delete_handle
unfoldable pub delete_handle : HandleMgr → Text → Option HandleMgr
delete_handle mgr m = delete_handle_wo mgr m

-- handle_mgr::done_handle
unfoldable pub done_handle : HandleMgr → ℕ → Option HandleMgr
done_handle mgr a = elim (mgr.heap a) [
  | none ↦ none
  | some h ↦
      let h' = decremented h in
      let mgr' = set_hinfo mgr a h' in
      if (h'.refcnt == 0) && h'.del then delete_handle_wo mgr' h'.m else some mgr'
]

-- handle::safebind of a handle whose h is not NULL, when binding a new connection gives `bound`, or fails:
-- the connection, where `none` is NULL.
unfoldable pub safebind : HandleMgr → ℕ → Option ℕ → Option (HandleMgr × Option ℕ)
safebind mgr a bound = elim (mgr.heap a) [
  | none ↦ none
  | some h ↦ if h.del then some (mgr, none) else elim h.cl [
    | some cl ↦ some (mgr, some cl)
    | none ↦ elim bound [
      | none ↦ some (set_hinfo mgr a (record h { del = true }), none)
      | some cl ↦ some (set_hinfo mgr a (record h { cl = some cl }), some cl)
    ]
  ]
]

-- The manager with its handles: how many handles there are of each address.
pub record Users : Type 0 where
  pub mgr : HandleMgr
  pub live : ℕ → ℕ

abbrev pub no_handles : Users
no_handles = record { mgr = init; live = λ a. 0 }

unfoldable pub set_live : (ℕ → ℕ) → ℕ → ℕ → ℕ → ℕ
set_live f a n = λ b. if b == a then n else f b

-- A step: a handle is made, or bound, or destroyed, or a server's handles are given up. There are fewer than
-- 2^31 handles of an address.
pub data Step : Users → Users → Type 0 where
  gets :
      (sys : Users) (m : Text) (mgr' : HandleMgr) (a : ℕ)
      → get_handle sys.mgr m ≡ some (mgr', some a)
      → sys.live a + 1 < 2 ^ 31
      → Step sys (record { mgr = mgr'; live = set_live sys.live a (sys.live a + 1) })
  gets_null :
      (sys : Users) (m : Text) (mgr' : HandleMgr)
      → get_handle sys.mgr m ≡ some (mgr', none)
      → Step sys (record sys { mgr = mgr' })
  binds :
      (sys : Users) (a : ℕ) (bound cl : Option ℕ) (mgr' : HandleMgr)
      → 0 < sys.live a
      → safebind sys.mgr a bound ≡ some (mgr', cl)
      → Step sys (record sys { mgr = mgr' })
  dones :
      (sys : Users) (a : ℕ) (mgr' : HandleMgr)
      → 0 < sys.live a
      → done_handle sys.mgr a ≡ some mgr'
      → Step sys (record { mgr = mgr'; live = set_live sys.live a (sys.live a - 1) })
  deletes :
      (sys : Users) (m : Text) (mgr' : HandleMgr)
      → delete_handle sys.mgr m ≡ some mgr'
      → Step sys (record sys { mgr = mgr' })

pub data Reach (from : Users) : Users → Type 0 where
  here : Reach from from
  next : {a b : Users} → Reach from a → Step a b → Reach from b
