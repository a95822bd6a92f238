-- ===== src/Signing/BlockList.antt =====
-- The signed form of a block list.
use kerneleye.Base.{◌≡◌, List, ◌∷◌, ◌++◌, append_assoc}
use kerneleye.Signing.{BlockListEntry, entry_bytes, more_entries, build_block_list_payload}

-- The reason of an entry is neither measured nor escaped: an entry whose reason ends in a newline and
-- the bytes of a second entry signs as the two entries do, whatever stands around them.
pub build_block_list_payload-ambiguous :
    (e f : BlockListEntry) (rest : List BlockListEntry)
    → build_block_list_payload (record e { reason = e.reason ++ (b'\n' ∷ entry_bytes f) } ∷ rest)
      ≡ build_block_list_payload (e ∷ f ∷ rest)
unfolding build_block_list_payload more_entries entry_bytes
build_block_list_payload-ambiguous e f rest = simp append_assoc
