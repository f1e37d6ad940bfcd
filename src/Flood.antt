-- ===== src/Flood.antt =====
-- One query in a network of the peers of src/decentralized_peer.cpp: search_index and broadcast_query of
-- all the peers, as steps of the threads that serve them, in any order.
pub mod Invariant
pub mod Asked
pub mod Covered
pub mod Steps
pub mod Outcome
pub mod Sums
pub mod Measure
pub mod Progress
pub mod Shipped
pub mod Threads
mod Tests
use cs550_pa.Prelude.{
  ℕ, suc, ◌+◌, ◌≡◌, ◌≢◌, ◌⊎◌, Bool, true, false, not, ◌&&◌, ◌==◌, if◌then◌else◌, Option, none, some,
}

-- A peer is known by its number, which stands for its address: its neighbours, and whether it has the
-- file that is looked for.
pub record Topology : Type 0 where
  pub neighbor : ℕ → ℕ → Bool
  pub holds : ℕ → Bool

-- Where a peer stands: it has not seen the query, its threads wait for replies, or it has sent its own.
pub data Node : Type 0 where
  idle waiting finished : Node

-- A reply: a DUP_REQUEST, or STATUS_OK with the endpoint of a peer.
abbrev pub Reply : Type 0
Reply = Option ℕ

-- Where the thread stands by which a peer asks another: there is none, its request is on the way, the
-- other peer works on it, or the reply is there.
pub data Edge : Type 0 where
  unasked asked working : Edge
  replied : Reply → Edge

-- `parent` is the sender of the request that a peer works on, `stamp` numbers the peers in the order in
-- which they began to, and `result` is what the first peer's broadcast has come to.
pub record Net : Type 0 where
  pub node : ℕ → Node
  pub edge : ℕ → ℕ → Edge
  pub parent : ℕ → ℕ
  pub stamp : ℕ → ℕ
  pub clock : ℕ
  pub result : Option Reply

abbrev pub put {ℓ} : {A : Type ℓ} → (ℕ → A) → ℕ → A → ℕ → A
put f n a x = if x == n then a else f x

abbrev pub put_edge : (ℕ → ℕ → Edge) → ℕ → ℕ → Edge → ℕ → ℕ → Edge
put_edge f n m e x y = if x == n && y == m then e else f x y

-- The threads that a broadcast starts: one for every neighbour but the sender.
abbrev pub asks : Topology → ℕ → ℕ → ℕ → Edge
asks t n sender m = if t.neighbor n m && not (m == sender) then asked else unasked

abbrev pub put_row : (ℕ → ℕ → Edge) → ℕ → (ℕ → Edge) → ℕ → ℕ → Edge
put_row f n row x y = if x == n then row y else f x y

-- The state once `search_for_file` of the peer `root` has begun its broadcast.
abbrev pub begun : Topology → ℕ → Net
begun t root = record {
  node = λ n. if n == root then waiting else idle;
  edge = λ n m. if n == root then asks t root root m else unasked;
  parent = λ n. root;
  stamp = λ n. 0;
  clock = 1;
  result = none;
}

-- A thread that has no request out.
pub data Settled : Edge → Type 0 where
  not_asked : Settled unasked
  has_reply : (r : Reply) → Settled (replied r)

-- What the joined threads of a peer leave as its response: a DUP_REQUEST if nobody has replied
-- otherwise, or a reply of the others, that of the thread that was the last to store it.
pub data Responds (edge : ℕ → Edge) : Reply → Type 0 where
  all_duplicates : ((m : ℕ) (h : ℕ) → edge m ≢ replied (some h)) → Responds edge none
  from_one : (m h : ℕ) → edge m ≡ replied (some h) → Responds edge (some h)

pub data Step (t : Topology) (root : ℕ) (s : Net) : Net → Type 0 where
  -- The query has been seen: a DUP_REQUEST.
  duplicate :
      (n m : ℕ)
      → s.edge n m ≡ asked
      → s.node m ≢ idle
      → Step t root s (record s { edge = put_edge s.edge n m (replied none) })
  -- The peer has the file.
  found :
      (n m : ℕ)
      → s.edge n m ≡ asked
      → s.node m ≡ idle
      → t.holds m ≡ true
      → Step t root s
          (record s { node = put s.node m finished; edge = put_edge s.edge n m (replied (some m)) })
  -- The peer passes the query on.
  forward :
      (n m : ℕ)
      → s.edge n m ≡ asked
      → s.node m ≡ idle
      → t.holds m ≡ false
      → Step t root s (record s {
        node = put s.node m waiting;
        edge = put_row (put_edge s.edge n m working) m (asks t m n);
        parent = put s.parent m n;
        stamp = put s.stamp m s.clock;
        clock = s.clock + 1;
      })
  -- The threads of a peer are joined, and the response goes to the sender.
  answer :
      (m : ℕ) (r : Reply)
      → m ≢ root
      → s.node m ≡ waiting
      → ((x : ℕ) → Settled (s.edge m x))
      → Responds (s.edge m) r
      → Step t root s (record s {
        node = put s.node m finished;
        edge = put_edge s.edge (s.parent m) m (replied r);
      })
  -- The threads of the first peer are joined.
  return :
      (r : Reply)
      → s.node root ≡ waiting
      → ((x : ℕ) → Settled (s.edge root x))
      → Responds (s.edge root) r
      → Step t root s (record s { node = put s.node root finished; result = some r })

-- What can be reached from the first peer, over peers that do not have the file.
pub data Reach (t : Topology) (root : ℕ) : ℕ → Type 0 where
  at_root : Reach t root root
  over : (n m : ℕ) → Reach t root n → t.holds n ≡ false → t.neighbor n m ≡ true → Reach t root m

-- What is connected to the first peer.
pub data Connected (t : Topology) (root : ℕ) : ℕ → Type 0 where
  itself : Connected t root root
  beyond : (n m : ℕ) → Connected t root n → t.neighbor n m ≡ true → Connected t root m

-- A run of the network from the beginning of the search on.
pub data Run (t : Topology) (root : ℕ) : Net → Type 0 where
  begin : Run t root (begun t root)
  then_step : (s s' : Net) → Run t root s → Step t root s s' → Run t root s'
