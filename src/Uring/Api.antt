-- ===== src/Uring/Api.antt =====
-- `io_uring::IoUring` with its submission and completion queues.
use trale.Prelude.{
  ℕ, suc, ◌<◌, ◌≡◌, Bool, false, not, ◌&&◌, Option, none, some, ◌==◌, if◌then◌else◌, ℤ, List,
}

-- An operation posts one completion, or any number of them of which the last is marked.
pub data OpClass : Type 0 where
  single_shot multi_shot : OpClass

pub record Cqe : Type 0 where
  pub user_data : ℕ
  pub result : ℤ
  -- `cqueue::more(flags)`: further completions of the same operation follow
  pub more : Bool

-- Memory of the program, by its address and its length.
pub record Buf : Type 0 where
  pub ptr : ℕ
  pub len : ℕ

-- The calls of `opcode::…::new`, with what the source sets before `build`; pointers are numbers.
pub data Opcode : Type 0 where
  read : (fd : ℤ) → Buf → (offset : ℕ) → Opcode
  write : (fd : ℤ) → Buf → (offset : ℕ) → Opcode
  accept_multi : (fd : ℤ) → Opcode
  connect : (fd : ℤ) → (addr : ℕ) → (len : ℕ) → Opcode
  open_at : (dir : ℤ) → (path : List ℕ) → (flags : ℕ) → (mode : ℕ) → Opcode
  mkdir_at : (dir : ℤ) → (path : List ℕ) → (mode : ℕ) → Opcode
  recv_msg : (fd : ℤ) → (hdr : ℕ) → Opcode
  send_msg : (fd : ℤ) → (hdr : ℕ) → Opcode

-- io_uring_enter(2): an accept with `IORING_ACCEPT_MULTISHOT` posts many completions.
abbrev pub class_of : Opcode → OpClass
class_of (accept_multi fd) = multi_shot
class_of _ = single_shot

-- the argument of `IoUring::new`
abbrev pub entries : ℕ
entries = 1024

pub record UringApi : Type 1 where
  pub Entry : Type 0
  pub Ring : Type 0
  -- `IoUring::new(entries)`
  pub new : Ring
  pub op_class : Entry → OpClass
  pub build : Opcode → Entry
  pub op_class-build : (o : Opcode) → op_class (build o) ≡ class_of o
  -- `submission().push(&entry.user_data(u))`, which fails on a full queue
  pub push : Ring → Entry → ℕ → Option Ring
  -- `submit_and_wait(1)`, which returns when a completion is there
  pub submit_and_wait : Ring → Option Ring
  -- `completion().next()`
  pub next : Ring → Option Cqe × Ring
  -- `register_sync_cancel` by user data
  pub sync_cancel : Ring → ℕ → Option Ring
  -- the operations whose last completion has not been taken, by user data
  pub inflight : Ring → ℕ → Option OpClass
  -- the completions that are in the queue
  pub queued : Ring → ℕ
  pub queued-next : (r : Ring) (c : Cqe) → (next r).0 ≡ some c → queued (next r).1 < queued r
  -- the free entries of the submission queue, which a submission empties
  pub room : Ring → ℕ
  pub room-new : room new ≡ entries
  pub push_room :
      (r : Ring) (e : Entry) (u n : ℕ) → room r ≡ suc n → (q : Ring) × (push r e u ≡ some q)
  pub push_full : (r : Ring) (e : Entry) (u : ℕ) → room r ≡ 0 → push r e u ≡ none
  pub room-push :
      (r : Ring) (e : Entry) (u : ℕ) (q : Ring) → push r e u ≡ some q → room r ≡ suc (room q)
  pub room-submit_and_wait : (r q : Ring) → submit_and_wait r ≡ some q → room q ≡ entries
  pub room-next : (r : Ring) → room (next r).1 ≡ room r
  pub inflight-new : (j : ℕ) → inflight new j ≡ none
  pub inflight-push :
      (r : Ring) (e : Entry) (u : ℕ) (q : Ring) (j : ℕ)
      → push r e u ≡ some q
      → inflight q j ≡ (if u == j then some (op_class e) else inflight r j)
  pub inflight-submit_and_wait :
      (r q : Ring) (j : ℕ) → submit_and_wait r ≡ some q → inflight q j ≡ inflight r j
  pub submit_and_wait_ready :
      (r q : Ring) → submit_and_wait r ≡ some q → (c : Cqe) × ((next q).0 ≡ some c)
  -- a completion belongs to an operation in flight, and ends it unless more follow
  pub next_inflight :
      (r : Ring) (c : Cqe) → (next r).0 ≡ some c → (k : OpClass) × (inflight r c.user_data ≡ some k)
  pub next_single :
      (r : Ring) (c : Cqe)
      → (next r).0 ≡ some c
      → inflight r c.user_data ≡ some single_shot
      → c.more ≡ false
  pub inflight-next :
      (r : Ring) (c : Cqe) (j : ℕ)
      → (next r).0 ≡ some c
      → inflight (next r).1 j ≡ (if (c.user_data == j) && not c.more then none else inflight r j)
  pub inflight-next_none :
      (r : Ring) (j : ℕ) → (next r).0 ≡ none → inflight (next r).1 j ≡ inflight r j
  pub inflight-sync_cancel :
      (r : Ring) (u : ℕ) (q : Ring) (j : ℕ) → sync_cancel r u ≡ some q → inflight q j ≡ inflight r j
  -- there is nothing to cancel: ENOENT
  pub sync_cancel_missing : (r : Ring) (u : ℕ) → inflight r u ≡ none → sync_cancel r u ≡ none

abbrev pub Ring : ⦃U : UringApi⦄ → Type 0
Ring ⦃U⦄ = U.Ring

abbrev pub Entry : ⦃U : UringApi⦄ → Type 0
Entry ⦃U⦄ = U.Entry
