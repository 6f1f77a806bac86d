-- ===== src/Tests/Data.antt =====
-- A database with three users, two problems and three games.
use byte_battle.Prelude.{ℕ, ◌+◌, false, true, none, some, List, [], ◌∷◌, String}
use byte_battle.Db.Rows.{
  ProblemVersion, published, Db, Game, GameParticipant, GameProblem, Problem, User, Uuid, public,
  private, pending, active,
}
use byte_battle.Db.Exec.{World}

abbrev user : Uuid → User
user u = record {
  id = u;
  username = "user";
  email = "user@example.com";
  password_hash = none;
  email_verified = true;
  rating = some 0;
  created_at = 1;
  updated_at = 1;
  name = some "user";
}

abbrev sum : Problem
sum = record {
  id = 1;
  slug = "sum";
  owner_user_id = none;
  visibility = public;
  status = published;
  title = "title";
  created_at = 1;
  updated_at = 1;
  current_version_id = some 11;
}

-- Only user 1 may use this one.
abbrev sort : Problem
sort = record {
  id = 2;
  slug = "sort";
  owner_user_id = some 1;
  visibility = private;
  status = published;
  title = "title";
  created_at = 1;
  updated_at = 1;
  current_version_id = some 12;
}

abbrev version_of : ℕ → ℕ → String → ProblemVersion
version_of v p path = record {
  id = v;
  problem_id = p;
  version = 1;
  artifact_path = path;
  artifact_sha256 = "";
  limits_time_ms = 1000;
  limits_memory_kb = 65536;
  checker_type = "diff";
  reference_language = "go";
  created_by_user_id = none;
  created_at = 1;
  test_case_count = 2;
  difficulty = "";
}

abbrev empty_db : Db
empty_db = record {
  users = user 1 ∷ user 2 ∷ user 3 ∷ [];
  games = [];
  next_game_id = 1;
  game_participants = [];
  next_participant_id = 1;
  game_problems = [];
  problems = sum ∷ sort ∷ [];
  problem_versions = version_of 11 1 "sum/1" ∷ version_of 12 2 "sort/1" ∷ [];
  next_problem_id = 3;
  next_version_id = 13;
  solutions = [];
  next_solution_id = 1;
  sessions = [];
  next_session_id = 1;
  verification_codes = [];
}

abbrev pub fresh : World
fresh = record { db = empty_db; now = 100; calls = 0; fails = λ n. false; uuids = λ n. 700 + n }

-- Game 1 waits for players, game 2 is being played, game 3 is a solo game.
abbrev pub waiting : Game
waiting = record {
  id = 1;
  creator_id = 1;
  winner_id = none;
  status = pending;
  started_at = none;
  completed_at = none;
  created_at = 10;
  updated_at = 10;
  is_public = true;
  invite_token = 71;
  is_solo = false;
  time_limit_minutes = none;
}

abbrev pub played : Game
played = record waiting {
  id = 2;
  status = active;
  started_at = some 20;
  invite_token = 72;
  is_public = false;
}

abbrev pub solo : Game
solo = record waiting {
  id = 3;
  status = active;
  started_at = some 30;
  invite_token = 73;
  is_solo = true;
  time_limit_minutes = some 5;
}

abbrev plays : ℕ → ℕ → Uuid → ℕ → GameParticipant
plays n i u idx = record { id = n; game_id = i; user_id = u; current_problem_index = idx }

abbrev asks : ℕ → ℕ → String → ℕ → GameProblem
asks i idx slug v = record {
  game_id = i;
  problem_index = idx;
  problem_id = slug;
  problem_version_id = v;
}

abbrev pub busy : World
busy = record fresh {
  db = record empty_db {
    games = waiting ∷ played ∷ solo ∷ [];
    next_game_id = 4;
    game_participants =
        plays 1 1 1 0 ∷ plays 2 1 2 0 ∷ plays 3 2 1 0 ∷ plays 4 2 3 1 ∷ plays 5 3 1 0 ∷ [];
    next_participant_id = 6;
    game_problems =
        asks 1 0 "sum" 11 ∷ asks 2 0 "sum" 11 ∷ asks 2 1 "sort" 12 ∷ asks 3 0 "sum" 11 ∷ [];
  };
}

abbrev pub slugs : List String
slugs = "sum" ∷ "sort" ∷ []
