-- ===== src/Core/Handles.antt =====
-- nebulasd/src/nebulasd/core/handles.py: offset, length and generation of a range in an arena.
use nebula_sd.Common.{ℕ, ◌+◌, Bool, Result, ◌>>◌, ok, leb, ◌==◌}
use nebula_sd.Core.Ids.{u32, u64, validate}

-- A byte arena counts in bytes and a HostKV arena in blocks.
pub record ArenaHandle : Type 0 where
  pub offset : ℕ
  pub length : ℕ
  pub generation : ℕ

-- The constructor with the checks of `__post_init__`.
unfoldable pub arena_handle : ℕ → ℕ → ℕ → Result ArenaHandle
unfolding validate
arena_handle offset length generation = do
  validate u64 offset
  validate u32 length
  validate u32 generation
  ok (record { offset = offset; length = length; generation = generation })

abbrev pub null : ArenaHandle
null = record { offset = 0; length = 0; generation = 0 }

unfoldable pub end_offset : ArenaHandle → ℕ
end_offset h = h.offset + h.length

unfoldable pub is_empty : ArenaHandle → Bool
is_empty h = h.length == 0

unfoldable pub within : ArenaHandle → ℕ → Result Bool
unfolding validate end_offset
within h capacity = do validate u64 capacity; ok (leb (end_offset h) capacity)
