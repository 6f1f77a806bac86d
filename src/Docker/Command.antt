-- ===== src/Docker/Command.antt =====
-- internal/executor/config.go, and the command that docker_executor.go builds of it. fmt's %d is a
-- parameter. Durations are nanoseconds, of which the code's are whole milliseconds, so that the
-- rounding of Seconds() to a float64 does not show.
use Prim.Native.String.{◌++◌}
use text.Mathlib.Text.{◌==◌ as str_eq}
use byte_battle.Prelude.{
  ℕ, ◌*◌, ◌/◌, ◌≡◌, refl, subst, ◌==◌, ltb, if◌then◌else◌, Bool, true, false, Option, none, some,
  List, [], ◌∷◌, String,
}
use byte_battle.Problem.Validator.{Extension, py, go, cpp, java, other, ext_to_lang, is_some}

pub record LangSettings : Type 0 where
  pub image : String
  pub source_file : String
  pub compile_cmd : List String
  pub run_cmd : List String
  pub warmup_cmd : String
  pub memory_limit : ℕ
  pub time_limit : ℕ
  pub pool_size : ℕ

-- strings.Join
unfoldable pub join : String → List String → String
join sep [] = ""
join sep (s ∷ []) = s
join sep (s ∷ t ∷ ss) = s ++ (sep ++ join sep (t ∷ ss))

abbrev pub second : ℕ
second = 1000000000

-- The time limit that execInContainer settles on.
unfoldable pub effective_limit : LangSettings → ℕ → ℕ
effective_limit cfg time_limit =
    let limit =
      if time_limit == 0
      then (if ltb 0 cfg.time_limit then cfg.time_limit * second else 0)
      else time_limit in
    if limit == 0 then 5 * second else limit

abbrev pub default_memory_limit : ℕ
default_memory_limit = 100 * 1024 * 1024

-- The memory of a warm container.
unfoldable pub container_memory : LangSettings → ℕ
container_memory cfg = if cfg.memory_limit == 0 then default_memory_limit else cfg.memory_limit

abbrev is_empty : List String → Bool
is_empty [] = true
is_empty (_ ∷ _) = false

module _ (digits : ℕ → String) where
  -- timeout(1) around the run command; without whole seconds there is none.
  unfoldable pub timed : ℕ → String → String
  timed secs cmd = if ltb 0 secs then "timeout " ++ (digits secs ++ ("s " ++ cmd)) else cmd

  unfoldable pub build_shell_command : LangSettings → Bool → ℕ → String
  build_shell_command cfg has_stdin limit =
      let run_cmd = join " " cfg.run_cmd ++ (if has_stdin then " < input.txt" else "") in
      let limited = timed (limit / second) run_cmd in
      if is_empty cfg.compile_cmd
      then limited
      else join " && " (join " " cfg.compile_cmd ∷ limited ∷ [])

-- Go's cache is filled by a program that imports the common packages.
abbrev go_warmup : String
go_warmup =
    "printf 'package main\\nimport (\"fmt\";\"bufio\";\"os\";\"sort\";\"strconv\";\"strings\";\"math\")\\nfunc main(){fmt.Sprint();bufio.NewReader(os.Stdin);sort.Ints(nil);strconv.Itoa(0);strings.Contains(\"\",\"\");math.Abs(0)}\\n' > /tmp/w.go && go run /tmp/w.go && rm /tmp/w.go"

-- DefaultConfig
unfoldable pub default_config : List (String × LangSettings)
default_config =
    (
      "python",
      record {
        image = "python:3.14-slim";
        source_file = "main.py";
        compile_cmd = [];
        run_cmd = "python" ∷ "main.py" ∷ [];
        warmup_cmd = "";
        memory_limit = 256 * 1024 * 1024;
        time_limit = 10;
        pool_size = 10;
      },
    )
    ∷ (
      "go",
      record {
        image = "golang:1.26-alpine";
        source_file = "main.go";
        compile_cmd = [];
        run_cmd = "go" ∷ "run" ∷ "main.go" ∷ [];
        warmup_cmd = go_warmup;
        memory_limit = 512 * 1024 * 1024;
        time_limit = 30;
        pool_size = 5;
      },
    )
    ∷ (
      "cpp",
      record {
        image = "gcc:15";
        source_file = "main.cpp";
        compile_cmd = "g++" ∷ "-O2" ∷ "-o" ∷ "solution" ∷ "main.cpp" ∷ [];
        run_cmd = "./solution" ∷ [];
        warmup_cmd = "";
        memory_limit = 512 * 1024 * 1024;
        time_limit = 30;
        pool_size = 5;
      },
    )
    ∷ (
      "java",
      record {
        image = "eclipse-temurin:21-jdk-alpine";
        source_file = "Main.java";
        compile_cmd = "javac" ∷ "Main.java" ∷ [];
        run_cmd = "java" ∷ "Main" ∷ [];
        warmup_cmd = "";
        memory_limit = 512 * 1024 * 1024;
        time_limit = 30;
        pool_size = 5;
      },
    )
    ∷ []

-- Run's lookup of a language's pool.
abbrev pub settings_of : String → List (String × LangSettings) → Option LangSettings
settings_of lang [] = none
settings_of lang ((l, s) ∷ ls) = if str_eq l lang then some s else settings_of lang ls

-- Every language that a reference solution may have has a pool with the default configuration.
pub ext_to_lang-supported :
    (e : Extension) (lang : String)
    → ext_to_lang e ≡ some lang
    → is_some (settings_of lang default_config) ≡ true
unfolding default_config
ext_to_lang-supported py lang h =
    let e : "python" ≡ lang = cc in
    subst (λ l. is_some (settings_of l default_config) ≡ true) e refl
ext_to_lang-supported go lang h =
    let e : "go" ≡ lang = cc in subst (λ l. is_some (settings_of l default_config) ≡ true) e refl
ext_to_lang-supported cpp lang h =
    let e : "cpp" ≡ lang = cc in subst (λ l. is_some (settings_of l default_config) ≡ true) e refl
ext_to_lang-supported java lang h =
    let e : "java" ≡ lang = cc in subst (λ l. is_some (settings_of l default_config) ≡ true) e refl
ext_to_lang-supported other lang h = cc
