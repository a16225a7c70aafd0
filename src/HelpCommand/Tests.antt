-- ===== src/HelpCommand/Tests.antt =====
-- The help of a program with two components, and instances of the theorems.
use go_component.Prelude.{◌≡◌, refl, some, List, [], ◌∷◌, ◌++◌}
use go_component.Help.{paragraphs, shorten_paragraph, single_line}
use go_component.ExtractDoc.{trim_space, trim_right, trim_left}
use go_component.HelpCommand.{
  help_services, find_service, insert_by_name, bytes_less, summary_line, spaces, padded, codes,
  Service, text, defaults, fatal, sort_by_name, summary_lines, service_help, help_command,
}
use go_component.HelpCommand.Services.{separated, trailing, ending_of, help_command-services}

abbrev ping : Service
ping = record {
  name = codes "ping";
  doc = codes "Sends pings.\n\nAnd waits.";
  flags = codes "rate" ∷ [];
}

abbrev echo : Service
echo = record { name = codes "echo"; doc = codes "Sends back."; flags = [] }

abbrev services : List Service
services = ping ∷ echo ∷ []

echo_help :
    help_command (codes "host") [] services (codes "help" ∷ codes "echo" ∷ codes "pong" ∷ []) ≡ (
      text (codes "echo: Sends back.\n") ∷ defaults [] ∷ text [] ∷ text (codes "\n\n") ∷ [],
      fatal (codes "pong"),
    )
unfolding help_command help_services find_service service_help trim_space paragraphs trim_right
    trim_left
echo_help = refl

summary_test :
    summary_lines (sort_by_name services)
    ≡ some (codes "    echo         Sends back.\n" ∷ codes "    ping         Sends pings.\n" ∷ [])
unfolding summary_lines sort_by_name insert_by_name bytes_less summary_line shorten_paragraph
    single_line paragraphs spaces padded
summary_test = refl

help_command-services_example :
    help_command
      (codes "host")
      []
      services
      (codes "help" ∷ codes "ping" ∷ (codes "echo" ∷ []) ++ codes "pong" ∷ [])
    ≡ (
      separated services (codes "ping" ∷ codes "echo" ∷ []) ++ trailing (codes "pong" ∷ []),
      ending_of (codes "pong" ∷ []),
    )
help_command-services_example =
    help_command-services (codes "host") [] services (codes "help") (codes "ping")
      (codes "echo" ∷ []) (codes "pong" ∷ []) refl refl
