-- ===== src/Journal.antt =====
-- journal.rs: the record of a migration's progress, and the in-memory journal.
use stplr.Base.{ℕ, Option, none, some, List, nat_Eq}
use stplr.Partitioner.{NodeId}

pub record MigrationRecord : Type 0 where
  pub old_nodes : List NodeId
  pub new_nodes : List NodeId
  pub replication : ℕ
  pub done : List ℕ

abbrev pub Journal : Type 0
Journal = Option MigrationRecord

unfoldable pub load : Journal → Option MigrationRecord
load j = j

unfoldable pub save : Journal → MigrationRecord → Journal
save j rec = some rec

unfoldable pub clear : Journal → Journal
clear j = none
