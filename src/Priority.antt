-- ===== src/Priority.antt =====
-- include/wss/priority.hpp: the three priorities, their order, and their array indices.
use thread_pool_runtime.Prelude.{ℕ, List, [], ◌∷◌}

pub data Priority : Type 0 where
  high normal background : Priority

-- `static_cast<std::size_t>(p)`
abbrev pub rank : Priority → ℕ
rank high = 0
rank normal = 1
rank background = 2

-- `kPriorityOrder`
abbrev pub priority_order : List Priority
priority_order = high ∷ normal ∷ background ∷ []
