-- ===== src/Services.antt =====
-- backend/internal/services/services.go: the service behind a port or a process name.
use kerneleye.Base.{ℕ, none, some, List, [], ◌∷◌, length, ◌==◌, if◌then◌else◌}
use kerneleye.Base.Str.{Str, str}
use kerneleye.Base.Dict.{Dict, lookup}

abbrev port_to_service : List (ℕ × Str)
port_to_service =
    (21, str "FTP")
    ∷ (22, str "SSH")
    ∷ (23, str "Telnet")
    ∷ (25, str "SMTP")
    ∷ (53, str "DNS")
    ∷ (67, str "DHCP")
    ∷ (68, str "DHCP")
    ∷ (80, str "HTTP")
    ∷ (110, str "POP3")
    ∷ (143, str "IMAP")
    ∷ (161, str "SNMP")
    ∷ (389, str "LDAP")
    ∷ (443, str "HTTPS")
    ∷ (587, str "SMTP")
    ∷ (636, str "LDAPS")
    ∷ (993, str "IMAPS")
    ∷ (995, str "POP3S")
    ∷ (1194, str "OpenVPN")
    ∷ (3000, str "HTTP-Alt")
    ∷ (3306, str "MySQL")
    ∷ (3389, str "RDP")
    ∷ (5432, str "PostgreSQL")
    ∷ (6379, str "Redis")
    ∷ (8000, str "HTTP-Alt")
    ∷ (8080, str "HTTP-Alt")
    ∷ (8443, str "HTTPS-Alt")
    ∷ (27017, str "MongoDB")
    ∷ []

abbrev process_to_service : Dict Str
process_to_service =
    (str "sshd", str "SSH")
    ∷ (str "nginx", str "HTTP")
    ∷ (str "apache2", str "HTTP")
    ∷ (str "httpd", str "HTTP")
    ∷ (str "lighttpd", str "HTTP")
    ∷ (str "caddy", str "HTTP")
    ∷ (str "mysqld", str "MySQL")
    ∷ (str "mariadbd", str "MySQL")
    ∷ (str "postgres", str "PostgreSQL")
    ∷ (str "redis-server", str "Redis")
    ∷ (str "mongod", str "MongoDB")
    ∷ (str "named", str "DNS")
    ∷ (str "unbound", str "DNS")
    ∷ (str "dnsmasq", str "DNS")
    ∷ (str "vsftpd", str "FTP")
    ∷ (str "proftpd", str "FTP")
    ∷ (str "pure-ftpd", str "FTP")
    ∷ (str "postfix", str "SMTP")
    ∷ (str "sendmail", str "SMTP")
    ∷ (str "dovecot", str "IMAP/POP3")
    ∷ (str "xrdp", str "RDP")
    ∷ (str "telnetd", str "Telnet")
    ∷ (str "memcached", str "Memcached")
    ∷ (str "rabbitmq", str "RabbitMQ")
    ∷ (str "kafka", str "Kafka")
    ∷ (str "elasticsearch", str "Elasticsearch")
    ∷ []

-- A lookup that gives the empty string for a port that is not there.
unfoldable pub port_name : List (ℕ × Str) → ℕ → Str
port_name [] port = []
port_name ((p, name) ∷ rest) port = if p == port then name else port_name rest port

unfoldable pub service_from_port : ℕ → Str
unfolding port_name
service_from_port port = port_name port_to_service port

abbrev by_port : ℕ → Str → Str
by_port port protocol =
    if length (service_from_port port) == 0 then protocol else service_from_port port

-- The process name first, then the port, then the protocol.
unfoldable pub resolve_service : Str → ℕ → Str → Str
resolve_service process port protocol =
    if length process == 0
    then by_port port protocol
    else elim (lookup process process_to_service) [
      | some service ↦ service
      | none ↦ by_port port protocol
    ]
