-- ===== src/LockClient/Known.antt =====
-- Whom the server knows of a lock's clients, and whom it calls.
use mathlib.Core.Option
use file_system_yfs.Base.{
  ◌≢◌, refl, arith, Option, none, some, List, [], ◌∷◌, ◌++◌, inl, inr, Bool-cases,
}
use file_system_yfs.Base.Text.{Text, equal}
use file_system_yfs.Caching.{LockProperty, Message}
use file_system_yfs.Caching

unfoldable pub All {ℓ} : {A : Type ℓ} → (A → Type 0) → List A → Type 0
All P [] = Unit
All P (x ∷ xs) = P x × All P xs

pub append-All {ℓ} :
    {A : Type ℓ} (P : A → Type 0) (xs ys : List A) → All P xs → All P ys → All P (xs ++ ys)
unfolding All
append-All P [] ys all all' = all'
append-All P (x ∷ xs) ys (p, all) all' = (p, append-All P xs ys all all')

pub middle-All {ℓ} :
    {A : Type ℓ} (P : A → Type 0) (xs : List A) (y : A) (ys : List A)
    → All P (xs ++ y ∷ ys)
    → P y × All P (xs ++ ys)
unfolding All
middle-All P [] y ys all = all
middle-All P (x ∷ xs) y ys (p, all) = let (q, all') = middle-All P xs y ys all in (q, (p, all'))

pub map-All {ℓ} :
    {A : Type ℓ} (P Q : A → Type 0) (xs : List A) → ((x : A) → P x → Q x) → All P xs → All Q xs
unfolding All
map-All P Q [] each all = tt
map-All P Q (x ∷ xs) each (p, all) = (each x p, map-All P Q xs each all)

insert-All :
    (P : Text → Type 0) (id : Text) (ws : List Text)
    → P id
    → All P ws
    → All P (Caching.insert id ws)
unfolding All Caching.insert
insert-All P id [] p all = (p, tt)
insert-All P id (w ∷ ws) p (q, all) = elim (Bool-cases (equal id w)) [
  | inl e ↦ rw (Caching.insert, e) (q, all)
  | inr e ↦ elim (Bool-cases (Caching.is_before id w)) [
    | inl b ↦ rw (Caching.insert, e, b) (p, (q, all))
    | inr b ↦ rw (Caching.insert, e, b) (q, insert-All P id ws p all)
  ]
]

erase-All :
    (P : Text → Type 0) (id : Text) (ws : List Text) → All P ws → All P (Caching.erase id ws)
unfolding All Caching.erase
erase-All P id [] all = tt
erase-All P id (w ∷ ws) (q, all) = elim (Bool-cases (equal id w)) [
  | inl e ↦ rw (Caching.erase, e) (erase-All P id ws all)
  | inr e ↦ rw (Caching.erase, e) (q, erase-All P id ws all)
]

-- The owner, if there is one, and the waiting clients of the server's entry.
unfoldable pub ServerKnows : (Text → Type 0) → Option LockProperty → Type 0
ServerKnows P none = Unit
ServerKnows P (some s) = (s.owner ≢ [] → P s.owner) × All P s.wait_list

-- Whom a call of the server goes to: revoke may go to nobody, and the owner is read of an entry that exists.
unfoldable pub SentTo : (Text → Type 0) → Option LockProperty → Message → Type 0
SentTo P server (Message.revoke id) = id ≢ [] → P id
SentTo P server (Message.retry id) = P id
SentTo P server Message.revoke_owner = server ≢ none

unfoldable pub Sends : (Text → Type 0) → Option LockProperty → List Message → Type 0
Sends P server ms = All (SentTo P server) ms

pub some_entry : (l : LockProperty) → some l ≢ none
some_entry l = λ e. absurd (ground arith)

pub map-Sends :
    (P Q : Text → Type 0) (server server' : Option LockProperty) (ms : List Message)
    → ((id : Text) → P id → Q id)
    → (server ≢ none → server' ≢ none)
    → Sends P server ms
    → Sends Q server' ms
unfolding Sends SentTo
map-Sends P Q server server' ms each stays all = map-All _ _ ms sent all
  where
    sent : (m : Message) → SentTo P server m → SentTo Q server' m
    sent (Message.revoke id) to = λ ne. each id (to ne)
    sent (Message.retry id) to = each id to
    sent Message.revoke_owner to = stays to

pub acquire_lock-Knows :
    (P : Text → Type 0) (server : Option LockProperty) (id : Text)
    → P id
    → ServerKnows P server
    → let (l, ret, calls) = Caching.acquire_lock (Option.get_or server Caching.new_lock) id in
      ServerKnows P (some l) × Sends P (some l) calls
unfolding ServerKnows Sends SentTo All Caching.acquire_lock Caching.erase
acquire_lock-Knows P none id p knows = ((λ e. p, tt), tt)
acquire_lock-Knows P (some s) id p (owner, all) = elim (Bool-cases s.state) [
  | inl held ↦ elim (Bool-cases s.revoke) [
    | inl e ↦ rw (Caching.acquire_lock, held, e) ((owner, insert-All P id s.wait_list p all), tt)
    | inr e ↦
        rw (Caching.acquire_lock, held, e)
          ((owner, insert-All P id s.wait_list p all), (some_entry _, tt))
  ]
  | inr free ↦ rw (Caching.acquire_lock, free) ((λ z. p, erase-All P id s.wait_list all), tt)
]

calls_of-Sends :
    (P : Text → Type 0) (server : Option LockProperty) (ws : List Text)
    → All P ws
    → Sends P server (Caching.calls_of ws)
unfolding Sends SentTo All Caching.calls_of
calls_of-Sends P server [] all = tt
calls_of-Sends P server (w ∷ []) (p, all) = (p, tt)
calls_of-Sends P server (w ∷ w' ∷ ws) (p, all) = (p, (λ ne. p, tt))

pub release_lock-Knows :
    (P : Text → Type 0) (s : LockProperty)
    → ServerKnows P (some s)
    → let (l, ret, calls) = Caching.release_lock s in
      ServerKnows P (some l) × Sends P (some l) calls
unfolding ServerKnows Caching.release_lock
release_lock-Knows P s (owner, all) =
    ((λ ne. absurd (ne refl), all), calls_of-Sends P _ s.wait_list all)
