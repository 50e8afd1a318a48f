-- ===== src/Messages/Storage/Noting.antt =====
-- src/messages/StorageCodec.ts: the notifications of the state of a storage.
use hamok_ts.Prelude.{if_defined, some, Key}
use hamok_ts.Message.{
  HamokMessage, empty_message, storage_applied_commit_notification, storage_hello_notification,
  storage_state_notification,
}
use hamok_ts.Messages.Decoding.{Decoded, decoded, asserted, expects}
use hamok_ts.Messages.HamokCodec.{encode_snapshot, StorageCodec}
use hamok_ts.Messages.Types.States.{
  StorageAppliedCommitNotification, StorageHelloNotification, StorageStateNotification,
}

module _ {K V E : Type 0} ⦃key : Key K⦄ (codec : StorageCodec K V) where
  unfoldable pub encode_storage_applied_commit_notification :
      StorageAppliedCommitNotification → HamokMessage E
  encode_storage_applied_commit_notification r = record (empty_message) {
    type = some storage_applied_commit_notification;
    raft_commit_index = some r.applied_commit_index;
    source_id = r.source_endpoint_id;
  }

  unfoldable pub decode_storage_applied_commit_notification :
      HamokMessage E → Decoded (StorageAppliedCommitNotification)
  decode_storage_applied_commit_notification m =
      expects storage_applied_commit_notification m.type (
        asserted m.raft_commit_index (λ index.
          decoded (record { applied_commit_index = index; source_endpoint_id = m.source_id })))

  unfoldable pub encode_storage_hello_notification : StorageHelloNotification → HamokMessage E
  encode_storage_hello_notification r = record (empty_message) {
    type = some storage_hello_notification;
    source_id = some r.source_endpoint_id;
  }

  unfoldable pub decode_storage_hello_notification :
      HamokMessage E → Decoded (StorageHelloNotification)
  decode_storage_hello_notification m =
      expects storage_hello_notification m.type
        (asserted m.source_id (λ id. decoded (record { source_endpoint_id = id })))

  unfoldable pub encode_storage_state_notification : StorageStateNotification → HamokMessage E
  encode_storage_state_notification r = record (empty_message) {
    type = some storage_state_notification;
    source_id = some r.source_endpoint_id;
    raft_commit_index = some r.commit_index;
    snapshot = encode_snapshot codec.str_codec r.serialized_storage_snapshot;
  }

  unfoldable pub decode_storage_state_notification :
      HamokMessage E → Decoded (StorageStateNotification)
  decode_storage_state_notification m = expects storage_state_notification m.type (
      asserted m.source_id (λ id. asserted m.raft_commit_index (λ index. decoded (record {
        source_endpoint_id = id;
        commit_index = index;
        serialized_storage_snapshot = if_defined codec.str_codec.decode m.snapshot;
      }))))
