-- ===== src/IpConfig.antt =====
-- internal/adapters/outbound/ipconfig/client.go: the location of an IP address, from ifconfig.co.
use mytonprovider_agent.Common.{ℕ, String, ◌==◌, ◌++◌, Text, codes, if◌then◌else◌}
use mytonprovider_agent.Domain.{IpInfo}
use mytonprovider_agent.World.{Act, Result, failed, wrap, pure, raise, lift, ask, wrapping, ◌>>=◌}
use mytonprovider_agent.World.Actions.Keeps.{
  IsReadOnly, pure-IsReadOnly, raise-IsReadOnly, lift-IsReadOnly, ask-IsReadOnly,
  wrapping-IsReadOnly, bind-IsReadOnly, if-IsReadOnly,
}
use mytonprovider_agent.Ports.{IpInfoClient}

pub record Info : Type 0 where
  pub ip : Text
  pub country : Text
  pub country_iso : Text
  pub city : Text
  pub time_zone : Text

pub record Response : Type 0 where
  pub status_code : ℕ
  pub body : Text

-- net/http and encoding/json: a request for a URL, its response at a tick, the decoded body
pub record Http : Type 0 where
  pub new_request : Text → Result Text
  pub do_request : Text → ℕ → Result Response
  pub decode : Text → Result Info

abbrev get_ip_info_op : String
get_ip_info_op = "adapters.ipconfig.GetIPInfo"

unfoldable pub ip_info_of : Info → IpInfo
ip_info_of c = record {
  country = c.country;
  country_iso = c.country_iso;
  city = c.city;
  time_zone = c.time_zone;
  ip = c.ip;
}

read_response : Http → Response → Act IpInfo
unfolding ◌>>=◌ lift wrapping pure raise ip_info_of
read_response h resp =
    if resp.status_code == 200
    then (wrapping get_ip_info_op (lift (h.decode resp.body)) >>= λ c. pure (ip_info_of c))
    else raise (wrap get_ip_info_op (failed "failed to get IP config"))

unfoldable pub get_ip_info : Http → Text → Act IpInfo
unfolding ◌>>=◌ lift ask wrapping read_response
get_ip_info h ip = do
  req ← wrapping get_ip_info_op (lift (h.new_request (codes "https://ifconfig.co/json?ip=" ++ ip)))
  resp ← wrapping get_ip_info_op (ask (h.do_request req))
  read_response h resp

read_response-IsReadOnly : (h : Http) (resp : Response) → IsReadOnly (read_response h resp)
unfolding read_response
read_response-IsReadOnly h resp =
    if-IsReadOnly _ _ _
      (bind-IsReadOnly (wrapping _ (lift (h.decode resp.body))) _
        (wrapping-IsReadOnly _ (lift (h.decode resp.body)) (lift-IsReadOnly _))
        (λ c. pure-IsReadOnly _))
      (raise-IsReadOnly _)

pub get_ip_info-IsReadOnly : (h : Http) (ip : Text) → IsReadOnly (get_ip_info h ip)
unfolding get_ip_info
get_ip_info-IsReadOnly h ip =
    bind-IsReadOnly (wrapping _ (lift (h.new_request _))) _
      (wrapping-IsReadOnly _ (lift (h.new_request _)) (lift-IsReadOnly _))
      (λ req.
        bind-IsReadOnly (wrapping _ (ask (h.do_request req))) (read_response h)
          (wrapping-IsReadOnly _ (ask (h.do_request req)) (ask-IsReadOnly _))
          (read_response-IsReadOnly h))

-- The client that the update use case gets.
abbrev pub ip_info_client : Http → IpInfoClient
ip_info_client h = record { get_ip_info = get_ip_info h; info_reads = get_ip_info-IsReadOnly h }
