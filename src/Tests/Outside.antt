-- ===== src/Tests/Outside.antt =====
-- A concrete `Outside`: ids written as numbers, ASCII patterns, maps in the order of their entries, and rows in
-- the order of the table.
use maga.Base.{true, codes}
use maga.Go.Strconv.{itoa, unsigned}
use maga.Api.Respond.{Texts}
use maga.Storage.Elements.Listing.{Sql}
use maga.Service.{Outside}
use maga.Tests.Ascii.{ascii}
use maga.Tests.RuleEngine.{in_order}

abbrev pub numbers : Texts
numbers = record {
  parse_uuid = unsigned;
  format_uuid = itoa;
  repo_error = λ e. codes "repository";
  assign_error = λ e. codes "assign";
}

abbrev any_like : Sql
any_like = record { like = λ s p. true; lower = λ s. s; to_lower = λ s. s; newest_first = λ es. es }

abbrev pub outside : Outside
outside = record {
  texts = numbers;
  json_error = λ e. codes "invalid pipeline";
  libs = ascii;
  order = in_order;
  by_name = λ cs. cs;
  sql = any_like;
  new_uuid = λ db. db.next_id;
}
