-- ===== src/Fabric.antt =====
-- What the models take from libfabric, which is not part of the repository: the constants of its
-- headers, the records that it fills in, and its error numbers. Pointers are numbers, and 0 is the
-- null pointer.
pub mod Values
use libfatbat.Prelude.{ℕ, List, ◌==◌, Bool}

abbrev pub is_null : ℕ → Bool
is_null p = p == 0

-- The constants that the code names. Nothing is assumed of their values here: a theorem that needs
-- two of them to differ says so.
pub record Consts : Type 0 where
  pub fi_msg : ℕ
  pub fi_rma : ℕ
  pub fi_tagged : ℕ
  pub fi_read : ℕ
  pub fi_write : ℕ
  pub fi_recv : ℕ
  pub fi_send : ℕ
  pub fi_transmit : ℕ
  pub fi_remote_read : ℕ
  pub fi_remote_write : ℕ
  pub fi_remote_cq_data : ℕ
  pub fi_rma_event : ℕ
  pub fi_hmem : ℕ
  pub fi_eagain : ℕ
  pub fi_eavail : ℕ
  pub fi_ecanceled : ℕ
  pub fi_ebusy : ℕ
  pub fi_success : ℕ

-- struct fi_cq_tagged_entry.
pub record CqEntry : Type 0 where
  pub op_context : ℕ
  pub flags : ℕ
  pub cq_data : ℕ

-- struct fi_cq_err_entry.
pub record CqErrEntry : Type 0 where
  pub op_context : ℕ
  pub flags : ℕ
  pub err : ℕ
  pub prov_errno : ℕ

-- What `fi_cq_read` returns: the entries that it wrote, as many as its result says, or a negated
-- error number.
pub data CqRead : Type 0 where
  entries : List CqEntry → CqRead
  failed : ℕ → CqRead
