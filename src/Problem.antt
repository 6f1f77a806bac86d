-- ===== src/Problem.antt =====
-- internal/problems: the data of a problem.
use byte_battle.Prelude.{ℕ, List, String}
use byte_battle.Prelude.Int.{ℤ}
pub mod Output
pub mod Matching
pub mod Store
pub mod Kebab
pub mod Slugs
pub mod Archive
pub mod Extraction
pub mod Validator
pub mod Limits

-- Text that the code walks through, as its bytes.
abbrev pub Text : Type 0
Text = List ℕ

pub record TestCase : Type 0 where
  pub name : String
  pub input : Text
  pub expected : Text

pub record Manifest : Type 0 where
  pub title : Text
  pub difficulty : String
  pub time_limit_ms : ℤ
  pub memory_limit_mb : ℤ

pub record Problem : Type 0 where
  pub slug : String
  pub statement : String
  pub manifest : Manifest
  pub test_cases : List TestCase
