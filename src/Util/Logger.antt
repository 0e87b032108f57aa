-- ===== src/Util/Logger.antt =====
-- util/log: log_level.hpp and logger.cpp. The time and the name of the thread are texts that come
-- with a call; the lock makes each call one step.
pub mod Routing
use aevum.Prelude.{ℕ, ◌+◌, [], ◌∷◌, ◌++◌, List, Str, lit, ltb, leb, if◌then◌else◌}

pub data LogLevel : Type 0 where
  debug info warn error fatal : LogLevel

unfoldable pub rank : LogLevel → ℕ
rank debug = 0
rank info = 1
rank warn = 2
rank error = 3
rank fatal = 4

unfoldable pub level_text : LogLevel → Str
level_text debug = lit "DEBUG"
level_text info = lit "INFO "
level_text warn = lit "WARN "
level_text error = lit "ERROR"
level_text fatal = lit "FATAL"

-- 27 is the escape character.
unfoldable pub color_of : LogLevel → Str
color_of debug = 27 ∷ lit "[34m"
color_of info = 27 ∷ lit "[32m"
color_of warn = 27 ∷ lit "[33m"
color_of error = 27 ∷ lit "[31m"
color_of fatal = 27 ∷ lit "[1;31m"

reset : Str
reset = 27 ∷ lit "[0m"

-- g_current_level, what the two streams were given, and how often a stream was flushed.
pub record Logger : Type 0 where
  pub current_level : LogLevel
  pub cout : List Str
  pub cerr : List Str
  pub flushes : ℕ

unfoldable pub new_logger : Logger
new_logger = record { current_level = info; cout = []; cerr = []; flushes = 0 }

unfoldable pub set_level : LogLevel → Logger → Logger
set_level level m = record m { current_level = level }

line_of : LogLevel → Str → Str → Str → Str
unfolding reset level_text color_of
line_of level timestamp thread_id message =
    lit "["
    ++ (timestamp
        ++ (lit "] "
            ++ (color_of level
                ++ (lit "["
                    ++ (level_text level
                        ++ (lit "]"
                            ++ (reset
                                ++ (lit " ["
                                    ++ (thread_id ++ (lit "] " ++ (message ++ lit "\n")))))))))))

unfoldable pub write : LogLevel → Str → Str → Str → Logger → Logger
unfolding rank line_of
write level timestamp thread_id message m =
    if ltb (rank level) (rank m.current_level)
    then m
    -- LogLevel::ERROR is 3, and LogLevel::FATAL is 4.
    else let line = line_of level timestamp thread_id message in
      if leb 3 (rank level)
      then record m {
        cerr = m.cerr ++ (line ∷ []);
        flushes = m.flushes + (if leb 4 (rank level) then 1 else 0);
      }
      else record m { cout = m.cout ++ (line ∷ []) }

-- A call of the logger.
pub data Call : Type 0 where
  setting : LogLevel → Call
  writing : LogLevel → Str → Str → Str → Call

unfoldable pub call : Call → Logger → Logger
unfolding set_level write
call (setting level) m = set_level level m
call (writing level time thread message) m = write level time thread message m

unfoldable pub call_all : List Call → Logger → Logger
unfolding call
call_all [] m = m
call_all (c ∷ cs) m = call_all cs (call c m)
