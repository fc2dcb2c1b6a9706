-- ===== src/NameNode/Datanodes/Alive.antt =====
-- Which data nodes GetDatanodes lists.
use file_system_yfs.Base.{
  ℕ, zero, suc, ◌+◌, ◌^◌, ◌<◌, ◌≡◌, refl, sym, ◌∙◌, Bool, true, false, ◌&&◌, ◌||◌, leb, List, [],
  ◌∷◌, inl, inr, Bool-cases, contradiction, arith,
}
use file_system_yfs.NameNode.Ids.{DatanodeId, before, same}
use file_system_yfs.NameNode.Ids.Order.{
  before_strict, before_trans, before_total, same_self, same_sound,
}
use file_system_yfs.NameNode.State.{NameNode}
use file_system_yfs.NameNode.Datanodes.{
  put, insert, as_int, send_heartbeat, datanode_heartbeat, is_alive, alive, get_datanodes,
}

unfoldable pub contains : List DatanodeId → DatanodeId → Bool
contains [] id = false
contains (k ∷ ks) id = same k id || contains ks id

-- Every key is behind `k`.
unfoldable pub AllBehind : DatanodeId → List (DatanodeId × ℕ) → Type 0
AllBehind k [] = Unit
AllBehind k ((k', v) ∷ m) = (before k k' ≡ true) × AllBehind k m

-- The keys are in the map's order.
unfoldable pub IsSorted : List (DatanodeId × ℕ) → Type 0
IsSorted [] = Unit
IsSorted ((k, v) ∷ m) = AllBehind k m × IsSorted m

AllBehind-before :
    (k k' : DatanodeId) (m : List (DatanodeId × ℕ))
    → before k k' ≡ true
    → AllBehind k' m
    → AllBehind k m
unfolding AllBehind
AllBehind-before k k' [] h all = tt
AllBehind-before k k' ((k'', v) ∷ m) h (h', all) =
    (before_trans k k' k'' h h', AllBehind-before k k' m h all)

AllBehind-put :
    (k : DatanodeId) (m : List (DatanodeId × ℕ)) (id : DatanodeId) (v : ℕ)
    → before k id ≡ true
    → AllBehind k m
    → AllBehind k (put m id v)
unfolding AllBehind put
AllBehind-put k [] id v h all = (h, tt)
AllBehind-put k ((k', w) ∷ m) id v h (h', all) = elim (Bool-cases (before id k')) [
  | inl e ↦ rw (put, e) (h, (h', all))
  | inr e ↦ elim (Bool-cases (before k' id)) [
    | inl e' ↦ rw (put, e, e') (h', AllBehind-put k m id v h all)
    | inr e' ↦ rw (put, e, e') (h', all)
  ]
]

put-IsSorted :
    (m : List (DatanodeId × ℕ)) (id : DatanodeId) (v : ℕ) → IsSorted m → IsSorted (put m id v)
unfolding IsSorted AllBehind put
put-IsSorted [] id v sorted = (tt, tt)
put-IsSorted ((k, w) ∷ m) id v (all, sorted) = elim (Bool-cases (before id k)) [
  | inl e ↦ rw (put, e) ((e, AllBehind-before id k m e all), (all, sorted))
  | inr e ↦ elim (Bool-cases (before k id)) [
    | inl e' ↦ rw (put, e, e') (AllBehind-put k m id v e' all, put-IsSorted m id v sorted)
    | inr e' ↦ rw (put, e, e') (all, sorted)
  ]
]

AllBehind-insert :
    (k : DatanodeId) (m : List (DatanodeId × ℕ)) (id : DatanodeId) (v : ℕ)
    → before k id ≡ true
    → AllBehind k m
    → AllBehind k (insert m id v)
unfolding AllBehind insert
AllBehind-insert k [] id v h all = (h, tt)
AllBehind-insert k ((k', w) ∷ m) id v h (h', all) = elim (Bool-cases (before id k')) [
  | inl e ↦ rw (insert, e) (h, (h', all))
  | inr e ↦ elim (Bool-cases (before k' id)) [
    | inl e' ↦ rw (insert, e, e') (h', AllBehind-insert k m id v h all)
    | inr e' ↦ rw (insert, e, e') (h', all)
  ]
]

insert-IsSorted :
    (m : List (DatanodeId × ℕ)) (id : DatanodeId) (v : ℕ) → IsSorted m → IsSorted (insert m id v)
unfolding IsSorted AllBehind insert
insert-IsSorted [] id v sorted = (tt, tt)
insert-IsSorted ((k, w) ∷ m) id v (all, sorted) = elim (Bool-cases (before id k)) [
  | inl e ↦ rw (insert, e) ((e, AllBehind-before id k m e all), (all, sorted))
  | inr e ↦ elim (Bool-cases (before k id)) [
    | inl e' ↦ rw (insert, e, e') (AllBehind-insert k m id v e' all, insert-IsSorted m id v sorted)
    | inr e' ↦ rw (insert, e, e') (all, sorted)
  ]
]

same_not : (a b : DatanodeId) → before a b ≡ true → (same a b ≡ false) × (same b a ≡ false)
same_not a b h = (
  elim (Bool-cases (same a b)) [
    | inl e ↦ contradiction (sym (before_strict b) ∙ rw (same_sound a b e) at h)
    | inr e ↦ e
  ],
  elim (Bool-cases (same b a)) [
    | inl e ↦ contradiction (sym (before_strict a) ∙ rw (same_sound b a e) at h)
    | inr e ↦ e
  ],
)

AllBehind-alive :
    (count : ℕ) (id : DatanodeId) (m : List (DatanodeId × ℕ))
    → AllBehind id m
    → contains (alive count m) id ≡ false
unfolding AllBehind alive contains
AllBehind-alive count id [] all = refl
AllBehind-alive count id ((k, v) ∷ m) (h, all) =
    let rest = AllBehind-alive count id m all in
    let differs = (same_not id k h).1 in
    elim (Bool-cases (is_alive count v)) [
      | inl e ↦ rw (alive, e, contains, differs) rest
      | inr e ↦ rw (alive, e) rest
    ]

-- In a sorted map, the node that was put is listed when its second passes the test.
alive-put :
    (count : ℕ) (m : List (DatanodeId × ℕ)) (id : DatanodeId) (v : ℕ)
    → IsSorted m
    → contains (alive count (put m id v)) id ≡ is_alive count v
unfolding IsSorted put alive contains
alive-put count [] id v sorted = elim (Bool-cases (is_alive count v)) [
  | inl e ↦ rw (e, contains, same_self id) refl
  | inr e ↦ rw e refl
]
alive-put count ((k, w) ∷ m) id v (all, sorted) = elim (Bool-cases (before id k)) [
  | inl e ↦
      rw (put, e)
        (here count id v ((k, w) ∷ m) (unfold AllBehind in (e, AllBehind-before id k m e all)))
  | inr e ↦ elim (Bool-cases (before k id)) [
    | inl e' ↦
        let rest = alive-put count m id v sorted in
        let differs = (same_not k id e').0 in
        elim (Bool-cases (is_alive count w)) [
          | inl t ↦ rw (put, e, e', alive, t, contains, differs) rest
          | inr t ↦ rw (put, e, e', alive, t) rest
        ]
    | inr e' ↦
        rw (put, e, e')
          (rw (before_total k id e' e) (here count id v m (rw (before_total k id e' e) at all)))
  ]
]
  where
    here :
        (count : ℕ) (id : DatanodeId) (v : ℕ) (m : List (DatanodeId × ℕ))
        → AllBehind id m
        → contains (alive count ((id, v) ∷ m)) id ≡ is_alive count v
    here count id v m all =
        unfold alive in
        unfold contains in
        elim (Bool-cases (is_alive count v)) [
          | inl t ↦ rw (alive, t, contains, same_self id) refl
          | inr t ↦ rw (alive, t) (AllBehind-alive count id m all)
        ]

-- `k` rounds of SendHeartbeat's loop.
unfoldable pub seconds : ℕ → NameNode → NameNode
seconds zero nn = nn
seconds (suc k) nn = send_heartbeat (seconds k nn)

seconds_lem :
    (k : ℕ) (nn : NameNode)
    → nn.heartbeat_count + k < 2 ^ 31
    → ((seconds k nn).heartbeat_count ≡ nn.heartbeat_count + k)
      × ((seconds k nn).datanode ≡ nn.datanode)
unfolding seconds send_heartbeat
seconds_lem zero nn small = (omega arith, refl)
seconds_lem (suc k) nn small =
    let (count, nodes) = seconds_lem k nn (omega arith) in (omega (arith, count), nodes)

is_alive_lem :
    (count k : ℕ)
    → count + k < 2 ^ 31
    → is_alive (count + k) (as_int count) ≡ (leb 3 (count + k) && leb k 3)
unfolding is_alive
is_alive_lem count k small = ground arith

-- In a sorted map of data nodes, before the counter gets to 2^31: k seconds after a heartbeat
-- GetDatanodes lists the node that sent it if k is at most 3 and the counter is not below 3 then,
-- and otherwise does not; and the map is still sorted.
pub get_datanodes-datanode_heartbeat :
    (nn : NameNode) (id : DatanodeId) (k : ℕ)
    → IsSorted nn.datanode
    → nn.heartbeat_count + k < 2 ^ 31
    → let nn' = seconds k (datanode_heartbeat nn id) in
      (contains (get_datanodes nn') id ≡ (leb 3 (nn.heartbeat_count + k) && leb k 3))
      × IsSorted nn'.datanode
unfolding datanode_heartbeat get_datanodes
get_datanodes-datanode_heartbeat nn id k sorted small =
    let (count, nodes) = seconds_lem k (datanode_heartbeat nn id) small in
    rw (count, nodes)
      (
        alive-put (nn.heartbeat_count + k) nn.datanode id (as_int nn.heartbeat_count) sorted
            ∙ is_alive_lem nn.heartbeat_count k small,
        put-IsSorted nn.datanode id _ sorted,
      )
