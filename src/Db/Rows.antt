-- ===== src/Db/Rows.antt =====
-- internal/db/sqlc/models.go and the tables of internal/migrations. A UUID is a number, a NULL is
-- `none`, an instant is a number of nanoseconds, an int32 is its bit pattern.
use byte_battle.Prelude.{ℕ, String, Bool, Option, List}

abbrev pub Uuid : Type 0
Uuid = ℕ

abbrev pub Time : Type 0
Time = ℕ

-- The values that the CHECK on games.status admits.
pub data Status : Type 0 where
  pending active finished cancelled : Status

pub record Game : Type 0 where
  pub id : ℕ
  pub creator_id : Uuid
  pub winner_id : Option Uuid
  pub status : Status
  pub started_at : Option Time
  pub completed_at : Option Time
  pub created_at : Time
  pub updated_at : Time
  pub is_public : Bool
  pub invite_token : Uuid
  pub is_solo : Bool
  pub time_limit_minutes : Option ℕ

pub record GameParticipant : Type 0 where
  pub id : ℕ
  pub game_id : ℕ
  pub user_id : Uuid
  pub current_problem_index : ℕ

pub record GameProblem : Type 0 where
  pub game_id : ℕ
  pub problem_index : ℕ
  pub problem_id : String
  pub problem_version_id : ℕ

-- The values that the CHECK on problems.visibility admits.
pub data Visibility : Type 0 where
  public unlisted private : Visibility

-- The values that the CHECK on problems.status admits.
pub data ProblemStatus : Type 0 where
  published archived : ProblemStatus

pub record Problem : Type 0 where
  pub id : ℕ
  pub slug : String
  pub owner_user_id : Option Uuid
  pub visibility : Visibility
  pub status : ProblemStatus
  pub title : String
  pub current_version_id : Option ℕ
  pub created_at : Time
  pub updated_at : Time

pub record ProblemVersion : Type 0 where
  pub id : ℕ
  pub problem_id : ℕ
  pub version : ℕ
  pub artifact_path : String
  pub artifact_sha256 : String
  pub limits_time_ms : ℕ
  pub limits_memory_kb : ℕ
  pub checker_type : String
  pub reference_language : String
  pub created_by_user_id : Option Uuid
  pub created_at : Time
  pub test_case_count : ℕ
  pub difficulty : String

pub record User : Type 0 where
  pub id : Uuid
  pub username : String
  pub email : String
  pub password_hash : Option String
  pub email_verified : Bool
  pub rating : Option ℕ
  pub created_at : Time
  pub updated_at : Time
  pub name : Option String

-- The values that the CHECK on solutions.status admits.
pub data SolutionStatus : Type 0 where
  pending running passed failed : SolutionStatus

pub record Solution : Type 0 where
  pub id : ℕ
  pub user_id : Uuid
  pub problem_id : String
  pub game_id : Option ℕ
  pub code : String
  pub language : String
  pub status : SolutionStatus
  pub execution_time : Option ℕ
  pub memory_used : Option ℕ
  pub created_at : Time
  pub updated_at : Time
  pub problem_version_id : ℕ

pub record Session : Type 0 where
  pub id : ℕ
  pub user_id : Uuid
  pub token : String
  pub expires_at : Time
  pub created_at : Time
  pub updated_at : Time

pub record VerificationCode : Type 0 where
  pub email : String
  pub code_hash : String
  pub expires_at : Time
  pub attempts : ℕ
  pub created_at : Time

-- The tables, each in the order of insertion, and the sequences behind the serial columns. A value
-- drawn by a statement that is rolled back is drawn again, where PostgreSQL leaves a gap.
pub record Db : Type 0 where
  pub users : List User
  pub games : List Game
  pub next_game_id : ℕ
  pub game_participants : List GameParticipant
  pub next_participant_id : ℕ
  pub game_problems : List GameProblem
  pub problems : List Problem
  pub next_problem_id : ℕ
  pub problem_versions : List ProblemVersion
  pub next_version_id : ℕ
  pub solutions : List Solution
  pub next_solution_id : ℕ
  pub sessions : List Session
  pub next_session_id : ℕ
  pub verification_codes : List VerificationCode
