-- ===== src/Esaa/Intentions.antt =====
-- esaa/mod.rs: intentions and verdicts.
use zymi_core.Prelude.{ℕ, Option, Text, codes}

pub data Intention : Type 0 where
  execute_shell_command : (command : Text) → (timeout_secs : Option ℕ) → Intention
  write_file : (path content : Text) → Intention
  read_file : (path : Text) → Intention
  web_search : (query : Text) → Intention
  web_scrape : (url : Text) → Intention
  write_memory : (key content : Text) → Intention
  spawn_sub_agent : (name task : Text) → Intention
  call_custom_tool : (tool_name arguments : Text) → Intention

unfoldable pub tag : Intention → Text
tag (execute_shell_command command timeout_secs) = codes "execute_shell_command"
tag (write_file path content) = codes "write_file"
tag (read_file path) = codes "read_file"
tag (web_search query) = codes "web_search"
tag (web_scrape url) = codes "web_scrape"
tag (write_memory key content) = codes "write_memory"
tag (spawn_sub_agent name task) = codes "spawn_sub_agent"
tag (call_custom_tool tool_name arguments) = codes "call_custom_tool"

pub data IntentionVerdict : Type 0 where
  approved : IntentionVerdict
  requires_human_approval : (reason : Text) → IntentionVerdict
  denied : (reason : Text) → IntentionVerdict
