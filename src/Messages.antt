-- ===== src/Messages.antt =====
-- include/lugh.h: the message that every queue and ring of the kernel carries.
use lugh_os.Base.{ℕ, List, replicate}

abbrev pub max_msg_size : ℕ
max_msg_size = 128

-- `message_t`; `_padding1` holds the channel context that `ipc_send` stamps for the auditor.
pub record Message : Type 0 where
  pub priority : ℕ
  pub operation : ℕ
  pub checksum : ℕ
  pub padding1 : ℕ
  pub payload : List ℕ

-- A slot of static storage before its first write.
abbrev pub blank : Message
blank = record {
  priority = 0;
  operation = 0;
  checksum = 0;
  padding1 = 0;
  payload = replicate max_msg_size 0;
}
