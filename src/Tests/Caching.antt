-- ===== src/Tests/Caching.antt =====
-- A cached lock that client a holds and client b waits for.
use file_system_yfs.Base.{[], ◌∷◌}
use file_system_yfs.Base.Text.{Text}
use file_system_yfs.Caching.{CachingServer, acquire, init, acquires, here, next}
use file_system_yfs.Caching.Waiting.{AreConsistent, Reach-AreConsistent}

abbrev a : Text
a = b'a' ∷ []

abbrev b : Text
b = b'b' ∷ []

abbrev two_calls : CachingServer
two_calls = (acquire (acquire (init 0) 1 a).0 1 b).0

Reach-AreConsistent_example : AreConsistent two_calls
Reach-AreConsistent_example =
    Reach-AreConsistent 0 two_calls
      (next (next here (acquires (init 0) 1 a)) (acquires (acquire (init 0) 1 a).0 1 b))
