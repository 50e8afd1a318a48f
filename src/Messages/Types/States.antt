-- ===== src/Messages/Types/States.antt =====
-- src/messages/messagetypes/StorageAppliedCommit.ts, StorageHelloNotification.ts and
-- StorageStateNotification.ts: what peers tell of their storages.
use hamok_ts.Prelude.{ℤ, String, Option}

pub record StorageAppliedCommitNotification : Type 0 where
  pub applied_commit_index : ℤ
  pub source_endpoint_id : Option String

pub record StorageHelloNotification : Type 0 where
  pub source_endpoint_id : String

pub record StorageStateNotification : Type 0 where
  pub source_endpoint_id : String
  pub commit_index : ℤ
  pub serialized_storage_snapshot : Option String
