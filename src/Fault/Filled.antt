-- ===== src/Fault/Filled.antt =====
-- Pages taken, filled and mapped: what becomes of the tables, of the new pages and of all other data.
use simple_rv64os.Base.{ℕ, ◌+◌, ◌-◌, ◌/◌, ◌^◌, ◌<◌, ◌≤◌, ◌≡◌, ◌∙◌, ap, true, false, none, arith}
use simple_rv64os.Buddy.{Buddy}
use simple_rv64os.Buddy.Take.{is_free, Takes}
use simple_rv64os.Bytes.{Bytes}
use simple_rv64os.Paging.{Machine}
use simple_rv64os.Paging.Space.{view, fields, Owner, IsSpace}
use simple_rv64os.Paging.Space.Page.{page_at, free_count}
use simple_rv64os.Paging.Space.Grow.{DataKept, DataKept-trans}
use simple_rv64os.Paging.Space.Range.{spans, spans-ap, MapsRange}
use simple_rv64os.Paging.Space.Block.{
  in_pages, count_block, filled-DataKept, look-filled_root, block-is_data, block_free,
}

-- Memory starts at frame 2 ^ 19.
abbrev pub frame_of : ℕ → ℕ
frame_of pfn = 2 ^ 19 + pfn

-- The n pages from `pfn` on, all free before, are in use, none of them as a table, and the pages of
-- addresses from `first` on lead to them; all else is as it was.
pub record Filled (d : ℕ) (m : Machine) (root : ℕ) (owner : Owner) (n first pfn rights : ℕ)
    (m' : Machine) (owner' : Owner) : Type 0 where
  pub space : IsSpace d m' root owner'
  pub mapped :
      (page : ℕ)
      → page < 2 ^ 27
      → view m'.memory root page ≡ spans (view m.memory root) first n (frame_of pfn) rights page
  pub was_free : (p : ℕ) → pfn ≤ p → p < pfn + n → (p < 2 ^ d) × (is_free d m.buddy p ≡ true)
  pub now_used :
      (p : ℕ) → pfn ≤ p → p < pfn + n → (is_free d m'.buddy p ≡ false) × (owner' (page_at p) ≡ none)
  pub data_kept : DataKept d m owner m' owner'

module _ (d : ℕ) (m : Machine) (root : ℕ) (owner : Owner) (space : IsSpace d m root owner)
    (small : d ≤ 25) (e pfn : ℕ) (b' : Buddy) (memory' : Bytes) (takes : Takes d e m.buddy pfn b')
    (others : (b : ℕ) → in_pages pfn (2 ^ e) b ≡ false → memory' b ≡ m.memory b)
    (n first rights : ℕ) (within : n ≤ 2 ^ e) (m' : Machine) (owner' : Owner)
    (maps : MapsRange d
      (record { memory = memory'; buddy = b' })
      root
      owner
      n
      first
      (frame_of pfn)
      rights
      m'
      owner') where
  abbrev mid : Machine
  mid = record { memory = memory'; buddy = b' }

  pub maps-Filled : Filled d m root owner n first pfn rights m' owner'
  maps-Filled = record {
    space = maps.space;
    mapped = λ page low.
        maps.mapped page low
        ∙ spans-ap (view memory' root) (view m.memory root) first n (frame_of pfn) rights page (
            ap fields
              (look-filled_root d m root owner space small e pfn b' memory' takes others page));
    was_free = λ p lo hi.
        block_free d m root owner space small e pfn b' memory' takes others p lo (omega arith);
    now_used = λ p lo hi.
        let (low, used, plain) =
          block-is_data d m root owner space small e pfn b' memory' takes others p lo
            (omega arith) in
        let (used', plain', _) = maps.data_kept p low used plain in (used', plain');
    data_kept =
        DataKept-trans d m mid m' owner owner owner'
          (filled-DataKept d m root owner space small e pfn b' memory' takes others) maps.data_kept;
  }

  -- The new pages hold what they were filled with.
  pub maps-content : (b : ℕ) → page_at pfn ≤ b → b < page_at (pfn + n) → m'.memory b ≡ memory' b
  maps-content b lo hi =
      let p = (b - page_at 0) / 4096 in
      let (low, used, plain) =
        block-is_data d m root owner space small e pfn b' memory' takes others p (omega arith)
          (omega arith) in
      let (_, _, same) = maps.data_kept p low used plain in same b (omega arith) (omega arith)

-- What is left after the block is taken.
pub room-after :
    (d e : ℕ) (m : Machine) (root : ℕ) (owner : Owner) (pfn : ℕ) (b' : Buddy)
    → IsSpace d m root owner
    → Takes d e m.buddy pfn b'
    → free_count (2 ^ d) d m.buddy ≤ 2 ^ e + free_count (2 ^ d) d b'
room-after d e m root owner pfn b' space takes =
    ground (arith, count_block (2 ^ d) d e m.buddy pfn b' (omega arith) space.buddy takes)
