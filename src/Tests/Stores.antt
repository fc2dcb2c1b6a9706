-- ===== src/Tests/Stores.antt =====
-- A store of extents as the client's services: one extent for each number, the next new one with
-- number 9, and a count for each lock.
use file_system_yfs.Base.{
  ℕ, ◌+◌, ◌-◌, ◌≡◌, ◌≢◌, refl, false, ◌==◌, ==_self, arith, if◌then◌else◌, [],
}
use file_system_yfs.Base.Text.{Text, length}
use file_system_yfs.Extent.{Status}
use file_system_yfs.Client.Services.{Services}
use file_system_yfs.Client.Stores.{Stores, Keeps}
use file_system_yfs.Client.Locks.{Counts}

pub record Extent : Type 0 where
  pub type : ℕ
  pub text : Text

pub record Store : Type 0 where
  pub at : ℕ → Extent
  pub held : ℕ → ℕ

abbrev set : Store → ℕ → Extent → Store
set s id e = record s { at = λ i. if id == i then e else s.at i }

abbrev count : Store → ℕ → (ℕ → ℕ) → Store
count s id f = record s { held = λ i. if id == i then f (s.held i) else s.held i }

abbrev pub store : Services Store
store = record {
  finum = λ t. 0;
  create = λ s type. (set s 9 (record { type = type; text = [] }), Status.ok, 9);
  get = λ s id. (s, Status.ok, (s.at id).text);
  put = λ s id t. (set s id (record { type = (s.at id).type; text = t }), Status.ok);
  getattr = λ s id. (
    s,
    Status.ok,
    record { type = (s.at id).type; atime = 0; mtime = 0; ctime = 0; size = length (s.at id).text },
  );
  remove = λ s id. (set s id (record { type = 0; text = [] }), Status.ok);
  acquire = λ s l. count s l (λ n. n + 1);
  release = λ s l. count s l (λ n. n - 1);
}

pub record Stored (s : Store) (id type : ℕ) (t : Text) : Type 0 where
  pub old : id ≢ 9
  pub same_type : (s.at id).type ≡ type
  pub same_text : (s.at id).text ≡ t

abbrev pub Room : Store → ℕ → Text → Type 0
Room s id t = Unit

create-Keeps : (kind : ℕ) → Keeps Stored Room (λ s. (store.create s kind).0)
create-Keeps kind = record {
  stored = λ s id type t h.
      let other : (9 == id) ≡ false = ground (arith, h.old) in
      record { old = h.old; same_type = rw other h.same_type; same_text = rw other h.same_text };
  room = λ s id t r. r;
}

same-Keeps : Keeps Stored Room (λ s. s)
same-Keeps = record { stored = λ s id type t h. h; room = λ s id t r. r }

count-Keeps : (l : ℕ) (f : ℕ → ℕ) → Keeps Stored Room (λ s. count s l f)
count-Keeps l f = record {
  stored =
      λ s id type t h. record { old = h.old; same_type = h.same_type; same_text = h.same_text };
  room = λ s id t r. r;
}

pub store-Stores : Stores store Stored Room
store-Stores = record {
  get_ok = λ s id type t h. refl;
  get_text = λ s id type t h. h.same_text;
  getattr_ok = λ s id type t h. refl;
  getattr_type = λ s id type t h. h.same_type;
  put_stored = λ s id type t t' h r. record {
    old = h.old;
    same_type = rw (==_self id) h.same_type;
    same_text = rw (==_self id) refl;
  };
  create_small = λ s id type t kind h. omega arith;
  get_keeps = λ s id type t h. record { stored = λ i k u x. x; room = λ i u x. x };
  getattr_keeps = λ id. same-Keeps;
  create_keeps = create-Keeps;
  acquire_keeps = λ l. count-Keeps l (λ n. n + 1);
  release_keeps = λ l s. (count-Keeps l (λ n. n - 1)).stored s;
}

pub store-Counts : Counts store (λ s. s.held)
store-Counts = record {
  create = λ s type l. refl;
  get = λ s id l. refl;
  put = λ s id t l. refl;
  getattr = λ s id l. refl;
  acquire = λ s id l. refl;
  release = λ s id l. refl;
}
