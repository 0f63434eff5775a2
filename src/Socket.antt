-- ===== src/Socket.antt =====
-- FFOS/socket.h: the asynchronous functions. `Unix` has those of Linux, `Windows` the others. Both
-- answer with -1 (`none`) and the error "in progress" while an operation is under way.
pub mod Unix
pub mod Windows
pub mod Pending
pub mod Overlapped
pub mod Vectors
pub mod Iovec
pub mod Create
pub mod Functions
pub mod Started
pub mod Address
pub mod Examples
use ffos.Base.{ℕ, List}

-- `ffsockaddr`: the length, and the bytes of the union.
pub record Addr : Type 0 where
  pub len : ℕ
  pub bytes : List ℕ

-- `sizeof(struct sockaddr_in6)`
abbrev pub sockaddr_size : ℕ
sockaddr_size = 28

-- A function's value, with the task and the rest of the world as it leaves them.
pub record Answer (V : Type 0) (T : Type 0) (E : Type 0) : Type 0 where
  pub value : V
  pub task : T
  pub outside : E
