-- ===== src/Config.antt =====
-- The settings, api-service/src/config/index.ts, from the environment's variables.
use scalequeue.Common.{String, Option, none, some}
use scalequeue.Identity.{codes}
use scalequeue.JobService.{truthy}
use scalequeue.Http.{Number, parse_int}

-- `process.env`, with the variables that the settings read.
pub record Environment : Type 0 where
  pub port : Option String
  pub node_env : Option String
  pub db_host : Option String
  pub db_port : Option String
  pub db_user : Option String
  pub db_password : Option String
  pub db_name : Option String
  pub redis_url : Option String

pub record DbConfig : Type 0 where
  pub host : String
  pub port : Number
  pub user : String
  pub password : String
  pub name : String

pub record Config : Type 0 where
  pub port : Number
  pub node_env : String
  pub db : DbConfig
  pub redis_url : String

-- `value || text`
abbrev pub or_text : Option String → String → String
or_text none d = d
or_text (some s) d = s

abbrev setting : Option String → String → String
setting value d = or_text (truthy value) d

-- `parseInt(value || text, 10)`
abbrev numeric : Option String → String → Number
numeric value d = parse_int (codes (setting value d))

unfoldable pub config : Environment → Config
config env = record {
  port = numeric env.port "3000";
  node_env = setting env.node_env "development";
  db = record {
    host = setting env.db_host "127.0.0.1";
    port = numeric env.db_port "3306";
    user = setting env.db_user "root";
    password = setting env.db_password "";
    name = setting env.db_name "scalequeue";
  };
  redis_url = setting env.redis_url "redis://localhost:6379";
}
