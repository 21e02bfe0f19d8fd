-- ===== src/Reassembler.antt =====
-- src/reassembler.{hh,cc}: substrings that arrive in any order, put together.
-- A string that has been moved from is empty, and the iterator before the first node of the list is
-- the end of the list, as in libstdc++.
pub mod Layout
pub mod Visit
pub mod Sweep
pub mod Settle
pub mod Flush
pub mod Insert
pub mod Correct
pub mod Counting
pub mod Closing
mod Tests
use networkinglab.Base.{
  ℕ, ◌-◌, ◌+◌, min, Bool, true, false, ◌&&◌, not, Option, none, some, List, [], ◌∷◌, ◌++◌, leb, ltb,
  ◌==◌, if◌then◌else◌, length, is_empty, take, drop, replicate, add64, sub64,
}
use networkinglab.Stream.{ByteStream, available_capacity, push, close}

-- Reassembler::substring.
pub record Substring : Type 0 where
  pub start : ℕ
  pub bytes : List ℕ

pub record Reassembler : Type 0 where
  pub substrs : List Substring
  pub nbytes_substrs : ℕ
  pub should_close : Bool

-- A Reassembler as it is made.
unfoldable pub init : Reassembler
init = record { substrs = []; nbytes_substrs = 0; should_close = false }

-- output.bytes_pushed() + output.available_capacity().
abbrev pub window_end : ByteStream → ℕ
window_end w = add64 w.bytes_pushed (available_capacity w)

-- std::string::resize.
abbrev pub resize : ℕ → List ℕ → List ℕ
resize n str = take n str ++ replicate (n - length str) 0

-- The data tail that is out of range is cut.
pub clip : ℕ → ℕ → List ℕ → List ℕ
clip bound first str =
    if ltb bound (add64 first (length str)) then resize (sub64 bound first) str else str

-- Bytes that are the next bytes are pushed at once; what is left of `data` comes first.
pub push_now : ℕ → List ℕ → ByteStream → List ℕ × ByteStream
push_now first str w =
    if leb first w.bytes_pushed && ltb w.bytes_pushed (add64 first (length str))
    then ([], push w (drop (sub64 w.bytes_pushed first) str))
    else (str, w)

-- substrs_.back().starti_; the code asks for it only where the list has a node.
last_start : Substring → List Substring → ℕ
last_start n [] = n.start
last_start n (m ∷ ns) = last_start m ns

-- What the insertion hands on: the data that still waits for a place, the list and its byte count.
pub record Placing : Type 0 where
  pub rest : List ℕ
  pub nodes : List Substring
  pub count : ℕ

-- The edge cases: an empty list, and data behind the last node.
pub place_edge : ℕ → List ℕ → List Substring → ℕ → Placing
unfolding last_start
place_edge first [] ns nb = record { rest = []; nodes = ns; count = nb }
place_edge first (x ∷ xs) [] nb = record {
  rest = [];
  nodes = record { start = first; bytes = x ∷ xs } ∷ [];
  count = add64 nb (length (x ∷ xs));
}
place_edge first (x ∷ xs) (n ∷ ns) nb =
    if ltb (last_start n ns) first
    then record {
      rest = [];
      nodes = n ∷ ns ++ (record { start = first; bytes = x ∷ xs } ∷ []);
      count = add64 nb (length (x ∷ xs));
    }
    else record { rest = x ∷ xs; nodes = n ∷ ns; count = nb }

pub stop : Substring → ℕ
stop n = add64 n.start (length n.bytes)

-- Does the node begin within the one before it?
pub overlaps : Option Substring → Substring → Bool
unfolding stop
overlaps none n = false
overlaps (some p) n = leb p.start n.start && ltb n.start (stop p)

-- nbytes_overlapped.
pub overlap : Option Substring → Substring → ℕ
unfolding stop
overlap none n = 0
overlap (some p) n = min (sub64 (stop p) n.start) (length n.bytes)

-- The node without its first `cut` bytes.
pub advance : ℕ → Substring → Substring
advance cut n = record { start = add64 n.start cut; bytes = drop cut n.bytes }

abbrev pub put : Substring → List Substring × ℕ → List Substring × ℕ
put n (ns, nb) = (n ∷ ns, nb)

-- The body of the first loop at a node, and then `rest`, the loop behind it. A node that the one
-- before it covers is erased.
pub visit :
    Option Substring
    → Substring
    → ℕ
    → (Option Substring → ℕ → List Substring × ℕ)
    → List Substring × ℕ
unfolding overlaps overlap advance
visit prev n nb rest =
    if overlaps prev n
    then (let cut = overlap prev n in
        let m = advance cut n in
        if is_empty m.bytes then rest prev (sub64 nb cut) else put m (rest (some m) (sub64 nb cut)))
    else put n (rest (some n) nb)

-- The first loop, once `data` has its place.
pub sweep : List Substring → Option Substring → ℕ → List Substring × ℕ
sweep [] prev nb = ([], nb)
sweep (n ∷ ns) prev nb = visit prev n nb (sweep ns)

-- The first loop: `data` goes in front of the first node that does not begin before it.
pub settle : ℕ → List ℕ → List Substring → Option Substring → ℕ → List Substring × ℕ
settle first str [] prev nb = ([], nb)
settle first str (n ∷ ns) prev nb =
    if not (is_empty str) && leb first n.start
    then visit prev (record { start = first; bytes = str }) (add64 nb (length str)) (sweep (n ∷ ns))
    else visit prev n nb (settle first str ns)

-- The second loop: nodes that the stream has reached are pushed and erased.
pub flush : List Substring → ℕ → ByteStream → List Substring × ℕ × ByteStream
flush [] nb w = ([], nb, w)
flush (n ∷ ns) nb w =
    let due = leb n.start w.bytes_pushed in
    let nb' = if due then sub64 nb (length n.bytes) else nb in
    let w' = if due then push w (drop (sub64 w.bytes_pushed n.start) n.bytes) else w in
    let (ms, k, v) = flush ns nb' w' in ((if due then ms else n ∷ ms), k, v)

-- The last test of insert.
pub close_if : Bool → ByteStream → ByteStream
close_if finished w = if finished then close w else w

-- Reassembler::insert.
unfoldable pub insert : Reassembler → ℕ → List ℕ → Bool → ByteStream → Reassembler × ByteStream
unfolding clip push_now place_edge settle flush close_if visit sweep
insert r first str is_last_substring w =
    if leb (window_end w) first
    then (r, w)
    else (let closing = if is_last_substring then true else r.should_close in
        let (str', w') = push_now first (clip (window_end w) first str) w in
        let p = place_edge first str' r.substrs r.nbytes_substrs in
        let (ns, nb) = settle first p.rest p.nodes none p.count in
        let (ms, pending, w'') = flush ns nb w' in
        (
          record { substrs = ms; nbytes_substrs = pending; should_close = closing },
          close_if (closing && (pending == 0)) w'',
        ))

-- Reassembler::bytes_pending.
pub bytes_pending : Reassembler → ℕ
bytes_pending r = r.nbytes_substrs
