-- ===== src/Core/Fleet/Order.antt =====
-- Cards keep their places (`stabilizeFleetList` of web/src/core/fleet.ts).
use ephemeral_sandbox_consol.Base.{ℕ, ◌≤◌, ◌≡◌, none, some, List, or_else, Text}
use ephemeral_sandbox_consol.Base.Keyed.{get}
use ephemeral_sandbox_consol.Api.Types.{SandboxRecord}

-- `a` may stand before `b`: a card shown before keeps its place among those, a new card comes after
-- all of them, and new cards stand as they came.
abbrev pub InOrder : List (Text × ℕ) → List (Text × ℕ) → SandboxRecord → SandboxRecord → Type 0
InOrder previous incoming a b =
    ((m n : ℕ) → get a.id previous ≡ some m → get b.id previous ≡ some n → m ≤ n)
    × (get a.id previous ≡ none
        → (get b.id previous ≡ none)
          × (or_else (get a.id incoming) 0 ≤ or_else (get b.id incoming) 0))
