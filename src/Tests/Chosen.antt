-- ===== src/Tests/Chosen.antt =====
-- The components chosen for a request and for a response.
use wimsey.Common.{◌≡◌, ◌≢◌, is_ok, All, true, false, [], ◌∷◌, ok}
use wimsey.Text.{codes}
use wimsey.HttpSig.Message.{method, path, query, status, req, HttpRequest, HttpExchange, of_request}
use wimsey.HttpSig.Profile.{connect}
use wimsey.HttpSig.Chosen.{request_components_lem, response_components_lem}
use wimsey.HttpSig.Message.{contains, request_value, exchange_value, of_exchange}
use wimsey.HttpSig.Profile.{request_components, response_components, check_connect_components}
use wimsey.Tests.Signatures.{get}

abbrev tunnel : HttpRequest
tunnel = record get { method = connect; headers = (codes "Txn-Token", codes " t ") ∷ [] }

request_components_lem_example :
    (contains (request_components tunnel) method ≡ true)
    × (tunnel.method ≢ connect
        → (contains (request_components tunnel) path ≡ true)
          × (contains (request_components tunnel) query ≡ true))
    × (check_connect_components (of_request tunnel) (request_components tunnel) false ≡ ok tt)
    × All (λ c. is_ok (request_value tunnel c) ≡ true) (request_components tunnel)
request_components_lem_example = request_components_lem tunnel

abbrev exchange : HttpExchange
exchange = record {
  response = record { status = 200; headers = (codes "content-type", codes "a/b") ∷ [] };
  request = get;
}

response_components_lem_example :
    (contains (response_components exchange) status ≡ true)
    × (contains (response_components exchange) (req method) ≡ true)
    × (exchange.request.method ≢ connect
        → (contains (response_components exchange) (req path) ≡ true)
          × (contains (response_components exchange) (req query) ≡ true))
    × (check_connect_components (of_exchange exchange) (response_components exchange) true ≡ ok tt)
    × All (λ c. is_ok (exchange_value exchange c) ≡ true) (response_components exchange)
response_components_lem_example = response_components_lem exchange
