-- ===== src/Log.antt =====
-- The log of mcertikos/kern/fs/log.c, over the disk and what the buffer cache shows of it.
pub mod Area
pub mod Install
pub mod Recovery
pub mod Append
pub mod Commit
pub mod Transaction
use advance_synchronization.Base.{
  ℕ, zero, suc, ◌+◌, ◌-◌, ◌%◌, ◌^◌, ◌==◌, ltb, leb, if◌then◌else◌, Bool, true, false, not, ◌||◌,
  List, [], ◌∷◌, Option, none, some, update,
}
use advance_synchronization.Transfer.{logsize}

-- The words of 32 bits of a block.
abbrev pub Block : Type 0
Block = ℕ → ℕ

abbrev pub Disk : Type 0
Disk = ℕ → Block

-- `struct log`, with the disk, the disks that it was before (the last first), and the data that
-- `bufcache_read` gives of each sector.
pub record Log : Type 0 where
  pub disk : Disk
  pub passed : List Disk
  pub view : Disk
  pub start : ℕ
  pub size : ℕ
  pub busy : Bool
  pub n : ℕ
  pub sector : ℕ → ℕ

-- A buffer with the sector gets the data.
unfoldable pub set_data : Log → ℕ → Block → Log
set_data l s b = record l { view = update l.view s b }

-- `bufcache_write`: the disk gets the data of the buffer.
unfoldable pub bufcache_write : Log → ℕ → Log
bufcache_write l s = record l { disk = update l.disk s (l.view s); passed = l.disk ∷ l.passed }

-- The loop of `install_trans` from `tail` on, with `k` blocks left.
unfoldable pub install_from : ℕ → ℕ → Log → Log
unfolding set_data bufcache_write
install_from zero tail l = l
install_from (suc k) tail l =
    let l' = set_data l (l.sector tail) (l.view (l.start + tail + 1)) in
    install_from k (tail + 1) (bufcache_write l' (l.sector tail))

unfoldable pub install_trans : Log → Log
install_trans l = install_from l.n 0 l

-- The loop of `read_head` that copies `sector[i]` for `i` below the bound.
unfoldable pub read_sectors : ℕ → Block → (ℕ → ℕ) → ℕ → ℕ
read_sectors zero b sector = sector
read_sectors (suc i) b sector = update (read_sectors i b sector) i (b (suc i))

unfoldable pub read_head : Log → Log
read_head l = let b = l.view l.start in record l { n = b 0; sector = read_sectors (b 0) b l.sector }

-- The loop of `write_head`.
unfoldable pub write_sectors : ℕ → (ℕ → ℕ) → Block → Block
write_sectors zero sector b = b
write_sectors (suc i) sector b = update (write_sectors i sector b) (suc i) (sector i)

unfoldable pub write_head : Log → Log
unfolding set_data bufcache_write
write_head l =
    let b = write_sectors l.n l.sector (update (l.view l.start) 0 l.n) in
    bufcache_write (set_data l l.start b) l.start

unfoldable pub recover_from_log : Log → Log
recover_from_log l = write_head (record (install_trans (read_head l)) { n = 0 })

-- `struct superblock` in block 1.
abbrev pub sb_size : Block → ℕ
sb_size b = b 0

abbrev pub sb_ninodes : Block → ℕ
sb_ninodes b = b 2

abbrev pub sb_nlog : Block → ℕ
sb_nlog b = b 3

-- `log_init` after a start with disk `d`, where no buffer is valid and the header in memory is zero. The
-- header takes less than a block, so the first test does not panic.
unfoldable pub log_init : Disk → Log
log_init d =
    let sb = d 1 in
    recover_from_log (record {
      disk = d;
      passed = [];
      view = d;
      start = (sb_size sb + 2 ^ 32 - sb_nlog sb) % 2 ^ 32;
      size = sb_nlog sb;
      busy = false;
      n = 0;
      sector = λ i. 0;
    })

-- `begin_trans`: `none` where the caller sleeps on the log.
unfoldable pub begin_trans : Log → Option Log
begin_trans l = if l.busy then none else some (record l { busy = true })

unfoldable pub commit_trans : Log → Log
commit_trans l =
    let l' =
      if ltb 0 l.n then write_head (record (install_trans (write_head l)) { n = 0 }) else l in
    record l' { busy = false }

-- The loop of `log_write` for absorption from `i` on, with `k` left.
unfoldable pub find_sector : ℕ → ℕ → (ℕ → ℕ) → ℕ → ℕ
find_sector zero i sector s = i
find_sector (suc k) i sector s =
    let rest = find_sector k (i + 1) sector s in if sector i == s then i else rest

-- `log_write` for the buffer of sector `s`; `none` is KERN_PANIC. The flag B_DIRTY keeps the buffer in
-- the cache, so `view` stays what it is.
unfoldable pub log_write : Log → ℕ → Option Log
unfolding set_data bufcache_write find_sector
log_write l s =
    if leb logsize l.n || leb (l.size - 1) l.n
    then none
    else if not l.busy
    then none
    else (let i = find_sector l.n 0 l.sector s in
        let l' =
          set_data (record l { sector = update l.sector i s }) (l.start + i + 1) (l.view s) in
        let l'' = bufcache_write l' (l.start + i + 1) in
        some (if i == l.n then record l'' { n = l.n + 1 } else l''))
