-- ===== src/Transport/Sgx.antt =====
-- transport-protocol/protos/transport_protocol.proto: the messages of SGX attestation, which nothing
-- in the repository makes any more, and which a request or a response may still hold.
use veracruz.Base.{ℕ, List, ℤ}
use veracruz.Vfs.Impl.{Bytes}

pub record SgxEc256Public : Type 0 where
  pub gx : Bytes
  pub gy : Bytes

pub record SgxEc256Signature : Type 0 where
  pub x : List ℕ
  pub y : List ℕ

pub record SgxMsg1 : Type 0 where
  pub g_a : SgxEc256Public
  pub gid : Bytes
  pub device_id : ℤ

pub record SgxMsg2 : Type 0 where
  pub g_b : SgxEc256Public
  pub spid : Bytes
  pub quote_type : ℕ
  pub kdf_id : ℕ
  pub sign_gb_ga : SgxEc256Signature
  pub mac : Bytes
  pub sig_rl_size : ℕ

pub record SgxMsg3 : Type 0 where
  pub mac : Bytes
  pub g_a : SgxEc256Public
  pub ps_sec_prop : Bytes
  pub device_id : ℤ

pub record SgxAttributes : Type 0 where
  pub flags : ℕ
  pub xfrm : ℕ

pub record SgxReportBody : Type 0 where
  pub cpu_svn : Bytes
  pub misc_select : ℕ
  pub reserve1 : Bytes
  pub isv_ext_prod_id : Bytes
  pub attributes : SgxAttributes
  pub mr_enclave : Bytes
  pub reserved2 : Bytes
  pub mr_signer : Bytes
  pub reserved3 : Bytes
  pub config_id : Bytes
  pub isv_prod_id : ℕ
  pub isv_svn : ℕ
  pub config_svn : ℕ
  pub reserved4 : Bytes
  pub isv_family_id : Bytes
  pub report_data : Bytes

pub record SgxQuote : Type 0 where
  pub version : ℕ
  pub sign_type : ℕ
  pub epid_group_id : Bytes
  pub qe_svn : ℕ
  pub pce_svn : ℕ
  pub xeid : ℕ
  pub basename : Bytes
  pub report_body : SgxReportBody
  pub signature_len : ℕ

pub record SgxCollateral : Type 0 where
  pub csr : Bytes

pub record SgxAttestationTokens : Type 0 where
  pub msg3 : SgxMsg3
  pub msg3_quote : SgxQuote
  pub msg3_sig : Bytes
  pub collateral_quote : SgxQuote
  pub collateral_sig : Bytes
  pub collateral : SgxCollateral

pub record SgxAttestationInit : Type 0 where
  pub public_key : Bytes
  pub device_id : ℤ

pub record SgxAttestationChallenge : Type 0 where
  pub msg2 : SgxMsg2
  pub challenge : Bytes
