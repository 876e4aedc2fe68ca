-- ===== src/System.antt =====
-- What the programs of src/ take from the C library and the kernel: how a program ends, the calls on
-- sockets as functions on a state of the kernel, and the constants of the kernel's headers.
pub mod Laws
use qrtr.Base.{ℕ, Option, none, some, List}
use qrtr.Packet.{Sockaddr}
use qrtr.Qrtr.{SockName}

-- Why a program leaves: it prints its usage, or a failure, it sleeps forever, its child
-- goes on, or it writes through NULL.
pub data Exit : Type 0 where
  usage : Exit
  failed : Exit
  dormant : Exit
  parent : Exit
  null_write : Exit

pub data Run {ℓ} (A : Type ℓ) : Type ℓ where
  ran : A → Run A
  left : Exit → Run A

infixl 5 ◌>>=◌
unfoldable pub ◌>>=◌ {ℓ κ} : {A : Type ℓ} {B : Type κ} → Run A → (A → Run B) → Run B
ran a >>= f = f a
left e >>= f = left e

-- `PLOGE_AND_EXIT` where a call failed.
abbrev pub or_exit {ℓ} : {A : Type ℓ} → Option A → Run A
or_exit none = left failed
or_exit (some a) = ran a

-- A C text, without the zero at its end.
abbrev pub Text : Type 0
Text = List ℕ

-- Constants and macros of the headers, and two sizes.
pub record Headers : Type 0 where
  pub af_qipcrtr : ℕ
  pub af_netlink : ℕ
  pub sock_dgram : ℕ
  pub netlink_route : ℕ
  pub nlm_f_request : ℕ
  pub nlm_f_ack : ℕ
  pub rtm_newaddr : ℕ
  pub ifa_local : ℕ
  pub nlmsg_error : ℕ
  pub nlmsg_space : ℕ → ℕ
  pub rta_length : ℕ → ℕ
  pub sockaddr_size : ℕ
  pub ifaddrmsg_size : ℕ

-- The `req` of `qrtr_set_address`: an attribute stands `attr_at` bytes behind its start.
pub record NetlinkRequest : Type 0 where
  pub nlmsg_len : ℕ
  pub nlmsg_flags : ℕ
  pub nlmsg_type : ℕ
  pub ifa_family : ℕ
  pub attr_at : ℕ
  pub rta_type : ℕ
  pub rta_len : ℕ
  pub rta_data : ℕ

-- Its `resp`; the error without its sign.
pub record NetlinkResponse : Type 0 where
  pub nlmsg_type : ℕ
  pub error : ℕ

pub data Bound (K : Type 0) : Type 0 where
  bound : K → Bound K
  in_use : Bound K
  refused : Bound K

-- The calls, with the state K of the kernel; `none` is an error.
pub record Kernel (K : Type 0) : Type 0 where
  pub socket : ℕ → ℕ → ℕ → K → Option (ℕ × K)
  pub getsockname : ℕ → K → Option (SockName × K)
  pub close : ℕ → K → K
  pub send : ℕ → NetlinkRequest → ℕ → K → Option K
  pub recv : ℕ → K → Option (NetlinkResponse × K)
  pub bind : ℕ → Sockaddr → K → Bound K
