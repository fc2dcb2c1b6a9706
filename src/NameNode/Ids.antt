-- ===== src/NameNode/Ids.antt =====
-- The order of data nodes that std::map<DatanodeIDProto, int> goes by, from yfs/namenode_base.cc. Of the
-- message DatanodeIDProto there are the fields that the operators read.
pub mod Order
use file_system_yfs.Base.{ℕ, Bool, true, false, not, ltb, ◌==◌, if◌then◌else◌}
use file_system_yfs.Base.Text.{Text, equal}
use file_system_yfs.Caching.{is_before}

pub record DatanodeId : Type 0 where
  pub ipaddr : Text
  pub hostname : Text
  pub xferport : ℕ

-- A comparison in the order of two keys, `lt` and `gt`, and then of the others.
unfoldable pub before_by : Bool → Bool → Bool → Bool
before_by lt gt others = if lt then true else if gt then false else others

-- operator<
unfoldable pub before : DatanodeId → DatanodeId → Bool
before a b = before_by (is_before a.ipaddr b.ipaddr) (is_before b.ipaddr a.ipaddr) (
    before_by (is_before a.hostname b.hostname) (is_before b.hostname a.hostname)
      (before_by (ltb a.xferport b.xferport) (ltb b.xferport a.xferport) false))

-- operator==
unfoldable pub same : DatanodeId → DatanodeId → Bool
same a b =
    if not (equal a.ipaddr b.ipaddr)
    then false
    else if not (equal a.hostname b.hostname)
    then false
    else if not (a.xferport == b.xferport)
    then false
    else true
