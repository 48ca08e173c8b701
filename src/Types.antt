-- ===== src/Types.antt =====
-- src/serverless_types.h: the identifiers and the record of the write-ahead log.
use mariadb_serverless_engin.Base.{ℕ}

-- `timeline_id` is a 64-bit number, `page_number` a 32-bit one.
pub record PageId : Type 0 where
  pub timeline_id : ℕ
  pub page_number : ℕ

pub record TimelineId : Type 0 where
  pub id : ℕ

-- `data` is a pointer: the address of the object that holds the record's bytes.
pub record WalRecord : Type 0 where
  pub lsn : ℕ
  pub length : ℕ
  pub address : ℕ
