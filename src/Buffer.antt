-- ===== src/Buffer.antt =====
-- The char arrays of src/SimulationWorker.cc and src/SimulationController.cc: `strcpy`, `memcpy`,
-- an indexed write and `string(buffer)`. `stray` counts the bytes accessed outside the array. Such
-- a write leaves the array as it is, and a byte read behind the end of a source leaves the byte
-- that the destination held, which is arbitrary.
pub mod Strings
use key_value_cluster_perf.Base.{
  ℕ, zero, suc, ◌+◌, Bytes, List, [], ◌∷◌, length, set, ltb, ◌==◌, if◌then◌else◌,
}

pub record Buffer : Type 0 where
  pub cells : Bytes
  pub stray : ℕ

abbrev cell : ℕ → Buffer → Buffer
cell c b = record b { cells = c ∷ b.cells }

abbrev astray : Buffer → Buffer
astray b = record b { stray = suc b.stray }

-- strcpy(cells, source.c_str()), up to the first NUL of the source and with it.
unfoldable pub strcpy : Bytes → Bytes → Buffer
strcpy [] [] = record { cells = []; stray = 1 }
strcpy [] (b ∷ bs) = record { cells = 0 ∷ bs; stray = 0 }
strcpy (c ∷ cs) [] =
    let rest = strcpy cs [] in if c == 0 then record { cells = []; stray = 1 } else astray rest
strcpy (c ∷ cs) (b ∷ bs) =
    let rest = strcpy cs bs in if c == 0 then record { cells = 0 ∷ bs; stray = 0 } else cell c rest

-- memcpy(cells, source, n)
unfoldable pub memcpy : ℕ → Bytes → Bytes → Buffer
memcpy zero source cells = record { cells = cells; stray = 0 }
memcpy (suc n) [] [] = astray (memcpy n [] [])
memcpy (suc n) [] (b ∷ bs) = astray (cell b (memcpy n [] bs))
memcpy (suc n) (c ∷ cs) [] = astray (memcpy n cs [])
memcpy (suc n) (c ∷ cs) (b ∷ bs) = cell c (memcpy n cs bs)

-- buffer[i] = v
unfoldable pub write_at : Buffer → ℕ → ℕ → Buffer
write_at b i v = if ltb i (length b.cells) then record b { cells = set b.cells i v } else astray b

-- string(buffer): the bytes before the first NUL.
unfoldable pub c_string : Bytes → Bytes
c_string [] = []
c_string (c ∷ cs) = let rest = c_string cs in if c == 0 then [] else c ∷ rest
