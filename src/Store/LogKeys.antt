-- ===== src/Store/LogKeys.antt =====
-- `ScanLogKeys` of internal/store/redis/log.go. `pages` are the answers of the SCAN calls; an error ends
-- the loop with what was found so far.
use prompt_graft.Base.{Option, none, some, List, [], ◌∷◌, ◌++◌, Bytes}
use prompt_graft.Store.Types.{SessionRef}
use prompt_graft.Store.Keys.{split_log_key}

abbrev pub cons_ref : Option SessionRef → List SessionRef → List SessionRef
cons_ref none refs = refs
cons_ref (some ref) refs = ref ∷ refs

unfoldable pub refs_of : List Bytes → List SessionRef
refs_of [] = []
refs_of (key ∷ keys) = cons_ref (split_log_key key) (refs_of keys)

unfoldable pub scan_log_keys : List (Option (List Bytes)) → List SessionRef
scan_log_keys [] = []
scan_log_keys (none ∷ pages) = []
scan_log_keys (some keys ∷ pages) = refs_of keys ++ scan_log_keys pages
