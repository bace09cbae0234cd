-- ===== src/Blocks/Freeing.antt =====
-- `block_free` as an update of the blocks, in a transaction.
use advance_synchronization.Log.{Log}
