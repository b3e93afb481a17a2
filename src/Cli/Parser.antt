-- ===== src/Cli/Parser.antt =====
-- `_build_parser` of src/crawler/__main__.py: what the commands take. The help texts are left out, and
-- what argparse makes of it.
use web_crawler.Prelude.{List, [], ◌∷◌, Text, lit}

-- An argument is a flag, or has a text that may be required or have a default.
pub data Kind : Type 0 where
  required flag : Kind
  default : Text → Kind

pub record Argument : Type 0 where
  pub name : Text
  pub kind : Kind

pub record Subcommand : Type 0 where
  pub name : Text
  pub arguments : List Argument

pub record Parser : Type 0 where
  pub prog : Text
  pub commands : List Subcommand

abbrev pub argument : Text → Kind → Argument
argument name kind = record { name = name; kind = kind }

-- What both commands take.
abbrev pub shared_arguments : List Argument
shared_arguments =
    argument (lit "--db") (default (lit "crawl.db"))
    ∷ argument (lit "--output") (default (lit "output"))
    ∷ argument (lit "--real") flag
    ∷ []

unfoldable pub build_parser : Parser
build_parser = record {
  prog = lit "crawler";
  commands =
      record {
        name = lit "crawl";
        arguments = argument (lit "--config") required ∷ shared_arguments;
      }
      ∷ record { name = lit "resume"; arguments = shared_arguments }
      ∷ [];
}
