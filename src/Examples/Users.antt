-- ===== src/Examples/Users.antt =====
-- The user service on the small database.
use testify.Common.{leb, ◌&&◌, false}
use testify.Users.Name.{Unicode}
use testify.Users.Repository.{get_by_id}
use testify.Users.Service.Funnel.{perform, perform-Evolves, ban_request}
use testify.Users.Service.Funnel.Edges.{EvolvesTo}
use testify.Examples.Data.{database}

abbrev latin : Unicode
latin = record {
  is_alpha = λ c. leb b'A' c && leb c b'z';
  is_control_or_symbol = λ c. leb c 31;
  is_line_separator = λ c. false;
  is_digit = λ c. leb b'0' c && leb c b'9';
  nfc_strip = λ s. s;
}

perform-Evolves_example :
    EvolvesTo (get_by_id 1 database) (get_by_id 1 (perform latin (ban_request 1) database))
perform-Evolves_example = perform-Evolves latin (ban_request 1) 1 database
