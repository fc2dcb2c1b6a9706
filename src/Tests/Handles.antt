-- ===== src/Tests/Handles.antt =====
-- Handles of one server: one is made, and the server is given up while it lives.
use file_system_yfs.Base.{◌<◌, ◌≡◌, ◌≢◌, refl, Bool, true, false, none, some, Holds, [], ◌∷◌, arith}
use file_system_yfs.Base.Text.{Text, equal}
use file_system_yfs.Handles.{
  Hinfo, HandleMgr, Users, set_hmap, set_heap, set_live, set_hinfo, new_hinfo, get_handle,
  delete_handle_wo, delete_handle, done_handle, safebind, init, no_handles, gets, deletes, Reach,
  here, next,
}
use file_system_yfs.Handles.Usable.{Reach-usable}

abbrev server : Text
server = b's' ∷ []

abbrev entry : Bool → Hinfo
entry del = record { cl = none; refcnt = 1; del = del; m = server }

abbrev got : HandleMgr
got = record {
  hmap = set_hmap init.hmap server (some 0);
  heap = set_heap init.heap 0 (some (entry false));
  next = 1;
}

abbrev one_handle : Users
one_handle = record { mgr = got; live = set_live no_handles.live 0 1 }

abbrev given_up : Users
given_up = record { mgr = set_hinfo got 0 (entry true); live = set_live no_handles.live 0 1 }

Reach-one_handle : Reach no_handles one_handle
unfolding get_handle new_hinfo
Reach-one_handle = next here (gets no_handles server got 0 refl (omega arith))

Reach-given_up : Reach no_handles given_up
unfolding delete_handle delete_handle_wo set_hmap set_heap equal
Reach-given_up =
    next Reach-one_handle (deletes one_handle server (set_hinfo got 0 (entry true)) refl)

used : 0 < given_up.live 0
unfolding set_live
used = omega arith

Reach-usable_example :
    (get_handle given_up.mgr server ≢ none)
    × (delete_handle given_up.mgr server ≢ none)
    × (0 < given_up.live 0
        → Holds (λ h. h.refcnt ≡ given_up.live 0) (given_up.mgr.heap 0)
          × (safebind given_up.mgr 0 none ≢ none)
          × (done_handle given_up.mgr 0 ≢ none))
Reach-usable_example = Reach-usable given_up server 0 none Reach-given_up

-- A new handle of the server is NULL, and so is what safebind answers to the old one.
given_up_handles :
    (get_handle given_up.mgr server ≡ some (given_up.mgr, none))
    × (safebind given_up.mgr 0 (some 7) ≡ some (given_up.mgr, none))
unfolding get_handle safebind set_hinfo set_hmap set_heap equal
given_up_handles = (refl, refl)
